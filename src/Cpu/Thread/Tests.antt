-- ===== src/Cpu/Thread/Tests.antt =====
-- fox32/src/main.rs: a processor that executes one instruction and is interrupted before the next.
use fox.Prelude.{◌*◌, ◌≡◌, refl, true, false, none, arith}
use fox.Outcome.{Outcome, done, panic}
use fox.Word.{u8}
use fox.Memory.{zeroed, read, write}
use fox.Cpu.State.{Cpu, Io, new, load, store, always}
use fox.Cpu.Stack.{push_stack}
use fox.Cpu.Control.{execute_nop, execute_reti}
use fox.Cpu.Thread.{turn, wake}
use fox.Cpu.Thread.Wakes.{wake-resumes}

-- A device that always gives 7, and swallows what it is given.
abbrev seven : Io (Unit {0})
seven = record { read_io = λ port d. done (7, d); write_io = λ port w b. done b }

-- The memory holds zeros, which are `nop`.
abbrev before : Cpu (Unit {0})
before = record (new (record { memory = zeroed; devices = tt })) {
  instruction_pointer = 0x100;
  stack_pointer = 0x1000;
}

abbrev behind : Cpu (Unit {0})
behind = record before { instruction_pointer = 0x102 }

one_turn : turn seven none true before ≡ done (tt, behind)
unfolding turn load read execute_nop
one_turn = refl

-- The same processor halted, with interrupts on.
abbrev halted : Cpu (Unit {0})
halted = record before {
  halted = true;
  flag = record { interrupt = true; carry = true; zero = false };
}

abbrev state_of : Outcome (Unit {0} × Cpu (Unit {0})) → Cpu (Unit {0})
state_of (done (u, s)) = s
state_of (panic e) = before

abbrev woken : Cpu (Unit {0})
woken = state_of (wake seven 3 true halted)

wake_run : wake seven 3 true halted ≡ done (tt, woken)
unfolding wake push_stack load store read write
wake_run = refl

wake-resumes_example :
    (woken.halted ≡ false)
    × (woken.flag.interrupt ≡ false)
    × (read 4 zeroed (u8 3 * 4) ≡ done woken.instruction_pointer)
    × (execute_reti always true woken
        ≡ done (0x100, record woken { stack_pointer = 0x1000; flag = halted.flag }))
wake-resumes_example =
    wake-resumes seven 3 true halted woken (omega arith) (omega arith) refl wake_run
