-- ===== src/Stomp/RxBuf/Header.antt =====
-- src/core/stomp.c: the header loop of ParseStompHeaders, GetStompHeaderValue and IsFrame.
use usp_agent_stomp.Common.{
  ℕ, ◌+◌, ◌-◌, Bool, true, false, not, ◌&&◌, ◌||◌, Option, none, some, [], ◌∷◌, ltb, ◌==◌,
  if◌then◌else◌, length, drop, Bytes,
}

abbrev is_byte : ℕ → Option ℕ → Bool
is_byte c none = false
is_byte c (some d) = d == c

-- The loop over the received bytes, at index `i`; `last` is p[-1] and `before` is p[-2], where they
-- exist. The result is the number of bytes up to the blank line, it included.
unfoldable pub find_header_end : Bytes → ℕ → Option ℕ → Option ℕ → Option ℕ
find_header_end [] i last before = none
find_header_end (c ∷ p) i last before =
    if (c == b'\n') && (is_byte b'\n' last || (is_byte b'\r' last && is_byte b'\n' before))
    then some (i + 1)
    else find_header_end p (i + 1) (some c) last

-- memcmp(msg, header, strlen(header)) == 0, for a message of at least that length
unfoldable pub has_prefix : Bytes → Bytes → Bool
has_prefix [] msg = true
has_prefix (h ∷ header) [] = false
has_prefix (h ∷ header) (c ∷ msg) = (c == h) && has_prefix header msg

-- The inner loop, which copies the value into a buffer of `len` bytes.
unfoldable pub copy_value : Bytes → ℕ → Bytes
copy_value [] len = []
copy_value (c ∷ msg) len =
    if ltb 1 len && not (c == b'\n') && not (c == b'\r') && not (c == 0)
    then c ∷ copy_value msg (len - 1)
    else []

-- The value of the first header line that starts with `header`, not the first line of the message.
unfoldable pub get_stomp_header_value : Bytes → Bytes → ℕ → Option Bytes
unfolding has_prefix copy_value
get_stomp_header_value header [] len = none
get_stomp_header_value header (c ∷ msg) len =
    let rest = get_stomp_header_value header msg len in
    if ltb (length header) (length (c ∷ msg))
    then if (c == b'\n') && has_prefix header msg
      then some (copy_value (drop (length header) msg) len)
      else rest
    else none

skip_newlines : Bytes → Bytes
skip_newlines [] = []
skip_newlines (c ∷ msg) = if (c == b'\n') || (c == b'\r') then skip_newlines msg else c ∷ msg

-- The frame's first bytes, behind line ends, are those of the name.
unfoldable pub is_frame : Bytes → Bytes → Bool
unfolding skip_newlines has_prefix
is_frame frame_name msg = has_prefix frame_name (skip_newlines msg)
