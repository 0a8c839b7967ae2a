-- ===== src/Console.antt =====
-- source/console.c: `rrc_con_ascii_safe`, which makes a text printable. It is called with its output on
-- top of its input, so it is modelled on one memory, of bytes, in which both have an address. The rest of
-- the file prints to the console.
use Prim.Native.Nat.{bit_and, bit_or}
use rr_launcher.Prelude.{
  ℕ, zero, suc, ◌+◌, ◌*◌, ◌^◌, Bool, true, false, ◌&&◌, ◌||◌, not, if◌then◌else◌, ltb, ◌==◌, List,
  [], ◌∷◌, length, get_elem?, set, Bytes, codes,
}
use rr_launcher.Result.{Outcome, done, error, fatal, fault, ◌>>=◌, read, defined}
pub mod AsciiSafe
pub mod Replacement
pub mod Junk
pub mod InPlace
mod Tests

-- A byte read, and a byte written.
abbrev pub load : Bytes → ℕ → Outcome ℕ
load mem i = read (get_elem? mem i)

abbrev pub store : Bytes → ℕ → ℕ → Outcome Bytes
store mem i v = defined (ltb i (length mem)) >>= λ _. done (set mem i v)

-- `a && b` where the second test is made only after the first.
abbrev pub and_then : Bool → Outcome Bool → Outcome Bool
and_then true o = o
and_then false o = done false

abbrev pub is_continuation : ℕ → Bool
is_continuation b = bit_and b 0xC0 == 0x80

-- The tests of `p[1]`, of `p[1]` and `p[2]`, and of all three.
abbrev pub continued : ℕ → Bytes → ℕ → Outcome Bool
continued zero mem p = done true
continued (suc n) mem p = load mem p >>= λ b. and_then (is_continuation b) (continued n mem (p + 1))

-- A lead byte for `n` continuations, which follow.
abbrev pub sequence : Bool → ℕ → Bytes → ℕ → Outcome Bool
sequence lead n mem p = and_then lead (continued n mem (p + 1))

abbrev pub codepoint2 : ℕ → ℕ → ℕ
codepoint2 c0 b1 = bit_or (bit_and c0 0x1F * 2 ^ 6) (bit_and b1 0x3F)

abbrev pub codepoint3 : ℕ → ℕ → ℕ → ℕ
codepoint3 c0 b1 b2 =
    bit_or (bit_or (bit_and c0 0x0F * 2 ^ 12) (bit_and b1 0x3F * 2 ^ 6)) (bit_and b2 0x3F)

abbrev pub codepoint4 : ℕ → ℕ → ℕ → ℕ → ℕ
codepoint4 c0 b1 b2 b3 =
    bit_or
      (bit_or (bit_or (bit_and c0 0x07 * 2 ^ 18) (bit_and b1 0x3F * 2 ^ 12))
        (bit_and b2 0x3F * 2 ^ 6))
      (bit_and b3 0x3F)

-- `repl`
unfoldable pub replacement : ℕ → Bytes
replacement codepoint =
    if codepoint == 0xE4
    then codes "ae"
    else if codepoint == 0xC4
    then codes "Ae"
    else if codepoint == 0xF6
    then codes "oe"
    else if codepoint == 0xD6
    then codes "Oe"
    else if codepoint == 0xFC
    then codes "ue"
    else if codepoint == 0xDC
    then codes "Ue"
    else if codepoint == 0xDF
    then codes "ss"
    else if codepoint == 0x2013 || codepoint == 0x2014
    then codes "-"
    else if codepoint == 0x2018 || codepoint == 0x2019
    then codes "'"
    else if codepoint == 0x201C || codepoint == 0x201D
    then codes "\""
    else if codepoint == 0x2026
    then codes "..."
    else codes "?"

-- What is written for the character at `p`, and how many bytes it takes.
abbrev pub character : Bytes → ℕ → ℕ → Outcome (Bytes × ℕ)
character mem p c0 =
    if ltb c0 0x80
    then done (c0 ∷ [], 1)
    else (sequence (bit_and c0 0xE0 == 0xC0) 1 mem p >>= λ two.
        sequence (bit_and c0 0xF0 == 0xE0) 2 mem p >>= λ three.
        sequence (bit_and c0 0xF8 == 0xF0) 3 mem p >>= λ four.
        if two
        then (load mem (p + 1) >>= λ b1. done (replacement (codepoint2 c0 b1), 2))
        else if three
        then (load mem (p + 1) >>= λ b1.
            load mem (p + 2) >>= λ b2. done (replacement (codepoint3 c0 b1 b2), 3))
        else if four
        then (load mem (p + 1) >>= λ b1. load mem (p + 2) >>= λ b2.
            load mem (p + 3) >>= λ b3. done (replacement (codepoint4 c0 b1 b2 b3), 4))
        else done (codes "?", 1))

-- `repl` to the output, while there is room for it and a terminator: the memory, and `used`.
abbrev pub put_all : Bytes → ℕ → ℕ → ℕ → Bytes → Outcome (Bytes × ℕ)
put_all mem out out_size used [] = done (mem, used)
put_all mem out out_size used (c ∷ repl) =
    if ltb (used + 1) out_size
    then (store mem (out + used) c >>= λ mem. put_all mem out out_size (used + 1) repl)
    else done (mem, used)

-- The loop's body at `p`, given the loop from the next character.
abbrev pub ascii_step : Bytes → ℕ → ℕ → ℕ → ℕ → (Bytes → ℕ → ℕ → Outcome Bytes) → Outcome Bytes
ascii_step mem p out out_size used rest = load mem p >>= λ c0.
    if not (c0 == 0) && ltb (used + 1) out_size
    then (character mem p c0 >>= λ (repl, consumed).
        put_all mem out out_size used repl >>= λ (mem, used). rest mem (p + consumed) used)
    else store mem (out + used) 0

-- The loop of `rrc_con_ascii_safe`, over at most `fuel` characters, and the terminator.
unfoldable pub ascii_loop : ℕ → Bytes → ℕ → ℕ → ℕ → ℕ → Outcome Bytes
ascii_loop zero mem p out out_size used = fault
ascii_loop (suc fuel) mem p out out_size used =
    ascii_step mem p out out_size used (λ mem p used. ascii_loop fuel mem p out out_size used)

-- `rrc_con_ascii_safe`: the memory after it.
unfoldable pub ascii_safe : Bytes → ℕ → ℕ → ℕ → Outcome Bytes
ascii_safe mem text out out_size =
    if out_size == 0 then done mem else ascii_loop (suc (length mem)) mem text out out_size 0
