-- ===== src/Text/Split.antt =====
-- src/core/text_utils.c: TEXT_UTILS_TrimBuffer, TEXT_UTILS_StrStr and TEXT_UTILS_SplitString.
pub mod Trim
pub mod Pieces
use usp_agent_stomp.Common.{
  ℕ, zero, suc, ◌+◌, ◌-◌, ◌≡◌, refl, Bool, true, false, not, ◌&&◌, ◌||◌, Option, none, some, List,
  [], ◌∷◌, ◌++◌, ◌==◌, if◌then◌else◌, length, take, drop, Bytes, codes,
}

abbrev pub is_space : ℕ → Bool
is_space c = c == b' ' || c == b'\t'

-- The loop: `i` is the position, `first` and `last` are the positions of the first and of the last
-- character so far that is no space; `last` starts at 0, as it points at the buffer.
unfoldable pub trim_scan : Bytes → ℕ → Option ℕ → ℕ → Option ℕ × ℕ
trim_scan [] i first last = (first, last)
trim_scan (c ∷ buf) i first last =
    if is_space c
    then trim_scan buf (i + 1) first last
    else trim_scan buf (i + 1) (elim first [ none ↦ some i | some j ↦ some j ]) i

-- The text from `first` up to and including `last`.
abbrev pub cut_out : Bytes → Option ℕ × ℕ → Bytes
cut_out buf (none, last) = []
cut_out buf (some first, last) = take (last + 1 - first) (drop first buf)

unfoldable pub trim_buffer : Bytes → Bytes
trim_buffer buf = cut_out buf (trim_scan buf 0 none 0)

-- strncmp(haystack, needle, strlen(needle)) == 0
unfoldable pub starts_with : Bytes → Bytes → Bool
starts_with [] haystack = true
starts_with (n ∷ needle) [] = false
starts_with (n ∷ needle) (c ∷ haystack) = (c == n) && starts_with needle haystack

abbrev pub is_quote : ℕ → Bool
is_quote c = c == b'"' || c == b'\''

abbrev pub is_head : ℕ → Bytes → Bool
is_head c [] = false
is_head c (n ∷ needle) = c == n

-- The suffix of the haystack at which the needle stands outside quotes. `quote` is the quote that is
-- open: the source jumps to its other end by strchr, or gives up where there is none.
unfoldable pub str_str_in : Option ℕ → Bytes → Bytes → Option Bytes
str_str_in quote [] needle = none
str_str_in (some q) (c ∷ haystack) needle =
    str_str_in (if c == q then none else some q) haystack needle
str_str_in none (c ∷ haystack) needle =
    let skipped = str_str_in (if is_quote c then some c else none) haystack needle in
    if not (is_quote c) && is_head c needle && starts_with needle (c ∷ haystack)
    then some (c ∷ haystack)
    else skipped

unfoldable pub str_str : Bytes → Bytes → Option Bytes
str_str haystack needle = str_str_in none haystack needle

-- STR_VECTOR_Add, unless the trimmed text is empty.
abbrev pub add_trimmed : List Bytes → Bytes → List Bytes
add_trimmed sv start = elim (trim_buffer start) [ [] ↦ sv | c ∷ s ↦ sv ++ (c ∷ s) ∷ [] ]

-- The loop, with at most `fuel` separators; the length of the text is enough.
unfoldable pub split_loop : ℕ → Bytes → Bytes → List Bytes → Option (List Bytes)
split_loop zero start separator sv = none
split_loop (suc fuel) start separator sv = elim (str_str start separator) [
  | none ↦ some (add_trimmed sv start)
  | some end ↦
      split_loop fuel (drop (length separator) end) separator
        (add_trimmed sv (take (length start - length end) start))
]

-- `none` only if the loop does not end.
unfoldable pub split_string : Bytes → Bytes → Option (List Bytes)
split_string str separator = split_loop (length str + 1) str separator []

split_runs :
    split_string (codes "value1 && value2&& &&value3") (codes "&&")
    ≡ some (codes "value1" ∷ codes "value2" ∷ codes "value3" ∷ [])
unfolding split_string split_loop str_str str_str_in starts_with trim_buffer trim_scan
split_runs = refl

quotes_hide :
    str_str (codes "value1='stuff with,in it'),value2") (codes ",") ≡ some (codes ",value2")
unfolding str_str str_str_in starts_with
quotes_hide = refl
