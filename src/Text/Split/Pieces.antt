-- ===== src/Text/Split/Pieces.antt =====
-- src/core/text_utils.c: the loop of TEXT_UTILS_SplitString ends.
use usp_agent_stomp.Common.{
  ℕ, zero, suc, ◌+◌, ◌-◌, ◌≤◌, ◌<◌, ◌≢◌, Option, none, some, List, [], ◌∷◌, arith, ◌==◌,
  if◌then◌else◌, length, take, drop, length-drop, Bytes,
}
use usp_agent_stomp.Text.Split.{
  is_quote, str_str_in, str_str, add_trimmed, split_loop, split_string,
}

-- Where the separator was found: not behind the text, and the separator is not empty.
abbrev IsFound : Bytes → Bytes → Option Bytes → Type 0
IsFound haystack needle none = Unit
IsFound haystack needle (some found) =
    (0 < length needle) × (0 < length found) × (length found ≤ length haystack)

str_str_in-IsFound :
    (quote : Option ℕ) (haystack needle : Bytes)
    → IsFound haystack needle (str_str_in quote haystack needle)
unfolding str_str_in
str_str_in-IsFound quote [] needle = tt
str_str_in-IsFound none (c ∷ haystack) [] =
    ground (arith, str_str_in-IsFound (if is_quote c then some c else none) haystack [])
str_str_in-IsFound none (c ∷ haystack) (n ∷ needle) =
    ground (arith, str_str_in-IsFound (if is_quote c then some c else none) haystack (n ∷ needle))
str_str_in-IsFound (some q) (c ∷ haystack) needle =
    ground (arith, str_str_in-IsFound (if c == q then none else some q) haystack needle)

further-ne-none :
    (fuel : ℕ) (start separator : Bytes) (sv : List Bytes) (found : Option Bytes)
    → IsFound start separator found
    → length start ≤ fuel
    → ((s : Bytes) (v : List Bytes) → length s < fuel → split_loop fuel s separator v ≢ none)
    → (elim found [
      | none ↦ some (add_trimmed sv start)
      | some end ↦
          split_loop fuel
            (drop (length separator) end)
            separator
            (add_trimmed sv (take (length start - length end) start))
    ])
      ≢ none
further-ne-none fuel start separator sv none h le loop = λ e. cc
further-ne-none fuel start separator sv (some found) h le loop =
    loop (drop (length separator) found) _
      (omega (arith, h.0, h.1, h.2, length-drop (length separator) found))

loop-ne-none :
    (fuel : ℕ) (start separator : Bytes) (sv : List Bytes)
    → length start < fuel
    → split_loop fuel start separator sv ≢ none
unfolding split_loop str_str
loop-ne-none zero start separator sv lt = absurd (omega arith)
loop-ne-none (suc fuel) start separator sv lt =
    further-ne-none fuel start separator sv (str_str_in none start separator)
      (str_str_in-IsFound none start separator) (omega arith)
      (λ s v less. loop-ne-none fuel s separator v less)

-- TEXT_UTILS_SplitString leaves its loop on every text and with every separator, also an empty one.
pub split_string-ne-none : (str separator : Bytes) → split_string str separator ≢ none
unfolding split_string
split_string-ne-none str separator = loop-ne-none (length str + 1) str separator [] (omega arith)
