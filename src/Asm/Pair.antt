-- ===== src/Asm/Pair.antt =====
-- The parse trees of the grammar fox32asm/src/fox32.pest, as fox32asm/src/main.rs reads them: a pair
-- has a rule, the text that it matched, and its inner pairs. The trees are the parser library's, so
-- every tree is considered, also one that the grammar does not give.
use Prim.Native.String.{String}
use fox.Outcome.{Outcome, done, panic, missing_pair}

-- One constructor for each rule of the grammar that has pairs.
pub data Rule : Type 0 where
  eoi assembly origin origin_padding origin_no_padding include_bin : Rule
  data_ data_byte data_half data_word data_str data_fill : Rule
  constant constant_name label label_kind label_name label_external label_global : Rule
  operand operand_value_ptr operand_value size condition : Rule
  instruction instruction_conditional instruction_zero instruction_one instruction_two : Rule
  immediate_bin body_bin immediate_hex body_hex immediate_dec body_dec : Rule
  immediate_char body_char immediate_str body_str register register_num other : Rule

mutual
  pub data Pair : Type 0 where
    pair : Rule → (text : String) → Pairs → Pair

  pub data Pairs : Type 0 where
    nil : Pairs
    cons : Pair → Pairs → Pairs

abbrev pub as_rule : Pair → Rule
as_rule (pair r text ps) = r

abbrev pub as_str : Pair → String
as_str (pair r text ps) = text

abbrev pub into_inner : Pair → Pairs
into_inner (pair r text ps) = ps

-- `pairs.next().unwrap()`: the pair, and the pairs behind it.
abbrev pub next : Pairs → Outcome (Pair × Pairs)
next nil = panic missing_pair
next (cons p ps) = done (p, ps)

-- `pair.into_inner().next().unwrap()`
abbrev pub first_inner : Pair → Outcome Pair
first_inner (pair r text nil) = panic missing_pair
first_inner (pair r text (cons p ps)) = done p
