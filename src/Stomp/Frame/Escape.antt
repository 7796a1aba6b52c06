-- ===== src/Stomp/Frame/Escape.antt =====
-- src/core/stomp.c: what EscapeStompHeader writes.
use usp_agent_stomp.Common.{
  ℕ, ◌+◌, ◌-◌, ◌||◌, ◌<◌, ◌≡◌, refl, ◌≢◌, [], ◌∷◌, arith, ◌==◌, if◌then◌else◌, length, All, Bytes,
}
use usp_agent_stomp.Stomp.Frame.{escape_stomp_header}

-- A header value with the escapes of STOMP 1.2 undone: \c, \\, \n and \r.
unfoldable pub unescaped : ℕ → ℕ
unescaped d = if d == b'c' then b':' else if d == b'n' then 10 else if d == b'r' then 13 else d

unfoldable pub unescape_header : Bytes → Bytes
unfolding unescaped
unescape_header [] = []
unescape_header (c ∷ []) = c ∷ []
unescape_header (c ∷ d ∷ s) =
    let rest = unescape_header s in
    let shorter = unescape_header (d ∷ s) in if c == b'\\' then unescaped d ∷ rest else c ∷ shorter

-- Two bytes for each colon and each backslash, and one for any other byte.
unfoldable pub escaped_length : Bytes → ℕ
escaped_length [] = 0
escaped_length (c ∷ s) =
    if (c == b':') || (c == b'\\') then escaped_length s + 2 else escaped_length s + 1

-- EscapeStompHeader's result has no colon and fits a destination of `dest_len` bytes, with its
-- terminator.
pub escape_stomp_header_bound :
    (src : Bytes) (dest_len : ℕ)
    → 0 < dest_len
    → All (λ c. c ≢ b':') (escape_stomp_header src dest_len)
      × (length (escape_stomp_header src dest_len) < dest_len)
unfolding escape_stomp_header
escape_stomp_header_bound [] dest_len h = (tt, h)
escape_stomp_header_bound (c ∷ src) dest_len h = ground (
  arith,
  escape_stomp_header_bound src (dest_len - 1),
  escape_stomp_header_bound src (dest_len - 2),
)

unescape-plain : (c : ℕ) (s : Bytes) → c ≢ b'\\' → unescape_header (c ∷ s) ≡ c ∷ unescape_header s
unfolding unescape_header
unescape-plain c [] h = refl
unescape-plain c (d ∷ s) h = ground arith

unescape-colon : (s : Bytes) → unescape_header (b'\\' ∷ b'c' ∷ s) ≡ b':' ∷ unescape_header s
unfolding unescape_header unescaped
unescape-colon s = refl

unescape-backslash : (s : Bytes) → unescape_header (b'\\' ∷ b'\\' ∷ s) ≡ b'\\' ∷ unescape_header s
unfolding unescape_header unescaped
unescape-backslash s = refl

unescape-nothing : unescape_header [] ≡ []
unfolding unescape_header
unescape-nothing = refl

-- A value whose escaped form leaves a byte of the destination unused, besides the terminator, is
-- what undoing the escapes of STOMP 1.2 gives back, whatever colons and backslashes it holds.
pub unescape_header-escape_stomp_header :
    (src : Bytes) (dest_len : ℕ)
    → escaped_length src + 1 < dest_len
    → unescape_header (escape_stomp_header src dest_len) ≡ src
unfolding escape_stomp_header escaped_length
unescape_header-escape_stomp_header [] dest_len h = unescape-nothing
unescape_header-escape_stomp_header (c ∷ src) dest_len h = ground (
  arith,
  unescape_header-escape_stomp_header src (dest_len - 1),
  unescape_header-escape_stomp_header src (dest_len - 2),
  unescape-plain c (escape_stomp_header src (dest_len - 1)),
  unescape-colon (escape_stomp_header src (dest_len - 2)),
  unescape-backslash (escape_stomp_header src (dest_len - 2)),
)
