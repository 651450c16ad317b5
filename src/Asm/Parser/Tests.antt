-- ===== src/Asm/Parser/Tests.antt =====
-- fox32asm/src/main.rs: a small tree of pairs, read by the parser.
use Prim.Native.String.{String}
use fox.Prelude.{false, ℕ, ◌≡◌, refl, ◌≤◌, List, [], ◌∷◌, arith}
use fox.Outcome.{Outcome, done, panic, unsupported, Ensures}
use fox.Outcome.Ends.{Ends, Any}
use fox.Asm.Ast.{InstructionTwo, Size, Condition, AstNode}
use fox.Asm.Pair.{Rule, Pair, Pairs, nil, cons, pair}
use fox.Asm.Parser.{Parser}
use fox.Asm.Parser.Bounds.{ReadInRange, parse_operand-IsInRange}
use fox.Asm.Parser.Build.{parse, parse_operand, parse_data, parse_origin}
use fox.Asm.Parser.Sound.{AllAssembled, parse-IsAssembled}
use fox.Asm.Parser.Ends.{pairs_count}
use fox.Asm.Parser.Fuel.{parse-Ends}
use fox.Asm.Parser.Numbers.{AtWord, numbers-AtWord}

-- No file is included.
abbrev no_binary : List ℕ → Outcome (List ℕ)
no_binary path = done []

abbrev start : Parser
start = record { current_size = Size.word; current_condition = Condition.always }

abbrev leaf : Rule → String → Pairs
leaf r text = cons (pair r text nil) nil

-- `5`
abbrev five : Pair
five = pair Rule.operand_value "5" (cons (pair Rule.immediate_dec "5" (leaf Rule.body_dec "5")) nil)

-- `[r2]`
abbrev through_r2 : Pair
through_r2 = pair Rule.operand "[r2]" (
    cons
      (pair Rule.operand_value_ptr "r2" (
        cons
          (pair Rule.operand_value "r2"
            (cons (pair Rule.register "r2" (leaf Rule.register_num "2")) nil))
          nil))
      nil)

-- `ifz mov.8 [r2], 5`
abbrev mov : Pair
mov = pair Rule.instruction "ifz mov.8 [r2], 5" (
    cons (pair Rule.condition "ifz" nil) (
      cons
        (pair Rule.instruction_conditional "mov.8 [r2], 5" (
          cons (pair Rule.instruction_two "mov" nil) (
            cons (pair Rule.size ".8" nil)
              (cons through_r2 (cons (pair Rule.operand "5" (cons five nil)) nil)))))
        nil))

-- `data.8 5`
abbrev data_five : Pair
data_five = pair Rule.data_byte "data.8 5" (cons five nil)

abbrev one_mov : Pairs
one_mov = cons mov (cons (pair Rule.eoi "" nil) nil)

parsed :
    parse no_binary 20 one_mov start
    ≡ done (
      AstNode.operation_two Size.byte Condition.zero InstructionTwo.mov
            (AstNode.register_pointer 2)
            (AstNode.immediate8 5)
          ∷ [],
      record { current_size = Size.byte; current_condition = Condition.always },
    )
unfolding parse
parsed = refl

-- The same data behind that instruction stops the assembler.
refused :
    parse_data data_five (record { current_size = Size.byte; current_condition = Condition.always })
    ≡ panic unsupported
unfolding parse_data
refused = refl

parse-IsAssembled_example : Ensures AllAssembled (parse no_binary 20 one_mov start)
parse-IsAssembled_example = parse-IsAssembled no_binary 20 one_mov start

one_mov_count : pairs_count one_mov ≤ 20
unfolding pairs_count
one_mov_count = omega arith

parse-Ends_example : Ends Any (parse no_binary 20 one_mov start)
parse-Ends_example = parse-Ends no_binary (λ path. tt) 20 one_mov start one_mov_count

numbers-AtWord_example :
    Ensures (AtWord start) (parse_data data_five start)
    × Ensures (AtWord start) (parse_origin data_five start)
numbers-AtWord_example = numbers-AtWord data_five start tt

parse_operand-IsInRange_example : Ensures ReadInRange (parse_operand five false start)
parse_operand-IsInRange_example = parse_operand-IsInRange five false start
