-- ===== src/Stomp/RxBuf/Framing.antt =====
-- src/core/stomp.c: what IsStompMsgComplete reports.
use usp_agent_stomp.Common.{
  ℕ, zero, suc, ◌+◌, ◌≤◌, ◌<◌, ◌≡◌, refl, sym, inl, inr, Option, none, some, [], ◌∷◌, ◌++◌, arith,
  Option-cases, length, Bytes,
}
use usp_agent_stomp.Common.Int.{ℤ, pos, negsuc, pos_part}
use usp_agent_stomp.Result.{ok, ◌>>=◌, Ensures, Ensures->>=}
use usp_agent_stomp.Stomp.RxBuf.Header.{find_header_end}
use usp_agent_stomp.Stomp.RxBuf.{
  RxBuf, count_newlines, parse_stomp_headers, find_nul, message_size, with_header,
  after_heart_beats, is_stomp_msg_complete,
}

-- The blank line that ParseStompHeaders finds stays where it is when more bytes arrive.
pub find_header_end-append :
    (p more : Bytes) (i : ℕ) (last before : Option ℕ) (n : ℕ)
    → find_header_end p i last before ≡ some n
    → find_header_end (p ++ more) i last before ≡ some n
unfolding find_header_end
find_header_end-append [] more i last before n e = ground arith
find_header_end-append (c ∷ p) more i last before n e =
    ground (arith, find_header_end-append p more (i + 1) (some c) last n)

find_header_end_bound :
    (p : Bytes) (i : ℕ) (last before : Option ℕ) (n : ℕ)
    → find_header_end p i last before ≡ some n
    → (i < n) × (n ≤ i + length p)
unfolding find_header_end
find_header_end_bound [] i last before n e = ground arith
find_header_end_bound (c ∷ p) i last before n e =
    ground (arith, find_header_end_bound p (i + 1) (some c) last n)

find_nul_bound : (p : Bytes) (len i n : ℕ) → find_nul p len i ≡ some n → (i < n) × (n ≤ i + len)
unfolding find_nul
find_nul_bound [] len i n e = ground arith
find_nul_bound (c ∷ p) zero i n e = ground arith
find_nul_bound (c ∷ p) (suc len) i n e = ground (arith, find_nul_bound p len (i + 1) n)

-- The first byte received is not a heartbeat.
abbrev pub NoBeat : RxBuf → Type 0
NoBeat rx = elim rx.frame [ none ↦ Unit | some buf ↦ count_newlines buf rx.msglen ≡ 0 ]

abbrev SizeFits : RxBuf × ℤ → Type 0
SizeFits r = pos_part r.1 ≤ r.0.msglen

found_fits :
    (buf : Bytes) (len : ℕ) (o : Option ℕ)
    → o ≡ find_nul buf len 0
    → pos_part (elim o [ none ↦ pos 0 | some n ↦ pos n ]) ≤ len
found_fits buf len none e = omega arith
found_fits buf len (some n) e = omega (arith, find_nul_bound buf len 0 n (sym e))

message_fits :
    (len : ℕ) (buf : Bytes) (frame_len : ℤ) → pos_part (message_size len buf frame_len) ≤ len
unfolding message_size
message_fits len buf (pos zero) = found_fits buf len (find_nul buf len 0) refl
message_fits len buf (pos (suc n)) = ground arith
message_fits len buf (negsuc n) = omega arith

parsed_length :
    (strtoul : Bytes → ℕ × Bytes) (rx : RxBuf)
    → Ensures (λ p. p.msglen ≡ rx.msglen) (parse_stomp_headers strtoul rx)
unfolding parse_stomp_headers
parsed_length strtoul rx = ground arith

with_header_fits :
    (len : ℕ) (buf : Bytes) (rx : RxBuf)
    → (pos_part (with_header len buf rx).1 ≤ len) × ((with_header len buf rx).0.msglen ≡ rx.msglen)
unfolding with_header
with_header_fits len buf rx = ground (arith, message_fits len buf rx.frame_len)

parsed_fits :
    (strtoul : Bytes → ℕ × Bytes) (rx : RxBuf) (buf : Bytes)
    → Ensures SizeFits
        (parse_stomp_headers strtoul rx >>= (λ parsed. ok (with_header rx.msglen buf parsed)))
parsed_fits strtoul rx buf =
    Ensures->>= (λ p. p.msglen ≡ rx.msglen) SizeFits _
      (λ parsed. ok (with_header rx.msglen buf parsed)) (parsed_length strtoul rx)
      (λ p e. omega (arith, with_header_fits rx.msglen buf p))

after_fits :
    (strtoul : Bytes → ℕ × Bytes) (rx : RxBuf)
    → Ensures SizeFits (after_heart_beats strtoul rx.msglen rx)
unfolding after_heart_beats
after_fits strtoul rx = elim (Option-cases rx.frame) [
  | inl e ↦ rw e (omega arith)
  | inr (buf, e) ↦ ground (arith, with_header_fits rx.msglen buf rx, parsed_fits strtoul rx buf)
]

-- Where the bytes received do not start with a heartbeat, the size that IsStompMsgComplete reports
-- is never more than the bytes that are in the buffer.
pub is_stomp_msg_complete_fits :
    (strtoul : Bytes → ℕ × Bytes) (rx : RxBuf)
    → NoBeat rx
    → Ensures SizeFits (is_stomp_msg_complete strtoul rx)
unfolding is_stomp_msg_complete
is_stomp_msg_complete_fits strtoul rx h = ground (arith, after_fits strtoul rx)
