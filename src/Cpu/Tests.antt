-- ===== src/Cpu/Tests.antt =====
-- fox32/src/cpu.rs: runs of the model on concrete processors, with a machine that has no devices.
use fox.Prelude.{update, ◌≡◌, refl, true, false, arith}
use fox.Outcome.{Outcome, done, panic, Ensures}
use fox.Memory.{zeroed, read, write}
use fox.Cpu.State.{
  Flag, Cpu, Bus, Io, load, store, new, always, zero, request, flag_from_u8, flag_to_u8,
}
use fox.Cpu.Decode.{Instruction, byte, word, register, immediate32}
use fox.Cpu.Stack.{push_stack, pop_stack}
use fox.Cpu.Stack.Laws.{pop_stack-push_stack}
use fox.Cpu.Interrupt.{interrupt, dispatch, handle_interrupt}
use fox.Cpu.Interrupt.Laws.{flag_from_u8-flag_to_u8, execute_reti-interrupt}
use fox.Cpu.Operand.{read_source, read_register_as, write_register_as}
use fox.Cpu.Arm.{binary, on_destination, apply_op}
use fox.Cpu.State.{check_condition, fetch, ip_plus, read_register, write_register}
use fox.Cpu.Alu.{execute_add, execute_sub, execute_mul, execute_cmp}
use fox.Cpu.Registers.{HasRegisters, Compared, execute_cmp-Compared}
use fox.Cpu.Registers.Arithmetic.{Calculates, Sum, Difference, Product, arithmetic-Calculates}
use fox.Cpu.Skipped.Special.{Skips}
use fox.Cpu.Skipped.Execute.{execute_instruction-skipped}
use fox.Cpu.Control.{execute_reti}
use fox.Cpu.Execute.{execute_instruction}

-- A device that always gives 7, and swallows what it is given.
abbrev port_seven : Io (Unit {0})
port_seven = record { read_io = λ port d. done (7, d); write_io = λ port w b. done b }

abbrev bus : Bus (Unit {0})
bus = record { memory = zeroed; devices = tt }

-- A processor amid a program, with interrupts and the carry on.
abbrev running : Cpu (Unit {0})
running = record (new bus) {
  instruction_pointer = 0x100;
  stack_pointer = 0x1000;
  flag = record { interrupt = true; carry = true; zero = false };
}

abbrev state_of : Outcome (Unit {0} × Cpu (Unit {0})) → Cpu (Unit {0})
state_of (done (u, s)) = s
state_of (panic e) = running

abbrev add_registers : Instruction
add_registers = Instruction.add word always register register

abbrev half_pushed : Cpu (Unit {0})
half_pushed = state_of (push_stack 2 0xBEEF false running)

push_run : push_stack 2 0xBEEF false running ≡ done (tt, half_pushed)
unfolding push_stack store write
push_run = refl

pop_stack-push_stack_example :
    pop_stack 2 false half_pushed ≡ done (0xBEEF, record half_pushed { stack_pointer = 0x1000 })
pop_stack-push_stack_example =
    pop_stack-push_stack 2 0xBEEF false running half_pushed (omega arith) (omega arith)
      (omega arith) push_run

flag_from_u8-flag_to_u8_example :
    flag_from_u8 (flag_to_u8 (record { interrupt = true; carry = false; zero = true }))
    ≡ record { interrupt = true; carry = false; zero = true }
flag_from_u8-flag_to_u8_example =
    flag_from_u8-flag_to_u8 (record { interrupt = true; carry = false; zero = true })

abbrev handling : Cpu (Unit {0})
handling = state_of (interrupt (request 3) false running)

interrupt_run : interrupt (request 3) false running ≡ done (tt, handling)
unfolding interrupt dispatch handle_interrupt push_stack load store read write
interrupt_run = refl

execute_reti-interrupt_example :
    execute_reti always false handling
    ≡ done (0x100, record handling { stack_pointer = 0x1000; flag = running.flag })
execute_reti-interrupt_example =
    execute_reti-interrupt 3 false running handling (omega arith) (omega arith) refl interrupt_run

-- An `in` that the zero flag forbids.
abbrev in_if_zero : Instruction
in_if_zero = Instruction.«in» zero register immediate32

execute_instruction-skipped_example :
    Ensures
      (Skips running port_seven true in_if_zero)
      (execute_instruction port_seven in_if_zero true running)
execute_instruction-skipped_example =
    execute_instruction-skipped port_seven running in_if_zero true refl

-- `cmp r1, r2` at the instruction pointer, with 5 and 9 in the registers.
abbrev comparing : Cpu (Unit {0})
comparing = record running {
  register = update (update (λ _. 0) 1 5) 2 9;
  bus = record {
    memory = record { ram = update (update (λ _. 0) 0x102 2) 0x103 1; rom = λ _. 0 };
    devices = tt;
  };
}

comparing-HasRegisters : HasRegisters comparing 1 2
unfolding read
comparing-HasRegisters = record {
  source_read = refl;
  destination_read = refl;
  within = omega arith;
  source_general = omega arith;
  destination_general = omega arith;
}

execute_cmp-Compared_example :
    (f : Flag) × (execute_cmp word always register register true comparing
      ≡ done (0x104, record comparing { flag = f }))
    × Compared true 5 9 (record comparing { flag = f })
    × (f.interrupt ≡ true)
execute_cmp-Compared_example = execute_cmp-Compared true comparing 1 2 comparing-HasRegisters word

add_run :
    execute_instruction port_seven add_registers true comparing
    ≡ done (
      0x104,
      record comparing {
        register = update comparing.register 1 14;
        flag = record { interrupt = true; carry = false; zero = false };
      },
    )
unfolding execute_instruction execute_add binary on_destination apply_op read_source check_condition
    fetch ip_plus load read read_register read_register_as write_register write_register_as
add_run = refl

arithmetic-Calculates_example :
    Calculates true comparing 1 2 comparing-HasRegisters byte
      (execute_add byte always register register)
      (Sum 8 5 9)
    × Calculates true comparing 1 2 comparing-HasRegisters byte
        (execute_sub byte always register register)
        (Difference 8 5 9)
    × Calculates true comparing 1 2 comparing-HasRegisters byte
        (execute_mul byte always register register)
        (Product 8 5 9)
arithmetic-Calculates_example =
    arithmetic-Calculates true comparing 1 2 comparing-HasRegisters byte (omega arith)
