-- ===== src/Vector/KvVector/Lookup.antt =====
-- src/core/kv_vector.c: what KV_VECTOR_FindKey and the Get functions find.
use usp_agent_stomp.Common.{
  ℕ, ◌+◌, ◌-◌, ◌≤◌, ◌≡◌, refl, ◌≢◌, ◌↔◌, Option, none, some, List, [], ◌∷◌, ◌++◌, arith, length,
  get_elem?, take, drop, All, Bytes, str_eq_iff, str_eq_refl,
}
use usp_agent_stomp.Common.Int.{pos}
use usp_agent_stomp.Result.{ok}
use usp_agent_stomp.Text.Hex.RoundTrip.{IsByte, to_hex, string_to_binary-to_hex}
use usp_agent_stomp.Vector.KvVector.{
  KvPair, kv_vector_add, kv_vector_add_hex_number, find_key_loop, kv_vector_find_key,
  kv_vector_get_hex_number,
}

abbrev pub HasNot : Bytes → List KvPair → Type 0
HasNot key kvv = All (λ pair. pair.0 ≢ key) kvv

loop_none :
    (kvv : List KvPair) (key : Bytes) (i : ℕ) → (find_key_loop kvv key i ≡ none) ↔ HasNot key kvv
unfolding find_key_loop
loop_none [] key i = (λ e. tt, λ h. refl)
loop_none (pair ∷ kvv) key i = ground (arith, str_eq_iff pair.0 key, loop_none kvv key (i + 1))

-- With a hint in range KV_VECTOR_FindKey finds nothing exactly if no entry has the key but possibly
-- the one just before the hint, which it does not look at.
pub find_key_none_iff :
    (kvv : List KvPair) (key : Bytes) (start : ℕ)
    → start ≤ length kvv
    → (kv_vector_find_key kvv key (pos start) ≡ none)
      ↔ (HasNot key (drop start kvv) × HasNot key (take (start - 1) kvv))
unfolding kv_vector_find_key
find_key_none_iff kvv key start h =
    ground (arith, loop_none (drop start kvv) key start, loop_none (take (start - 1) kvv) key 0)

loop-add :
    (kvv : List KvPair) (key : Bytes) (value : Option Bytes) (i : ℕ)
    → HasNot key kvv
    → find_key_loop (kvv ++ (key, value) ∷ []) key i ≡ some (i + length kvv)
unfolding find_key_loop
loop-add [] key value i h = ground (arith, str_eq_refl key)
loop-add (pair ∷ kvv) key value i (hp, hs) =
    ground (arith, str_eq_iff pair.0 key, loop-add kvv key value (i + 1) hs)

elem-append :
    (kvv : List KvPair) (pair : KvPair) → get_elem? (kvv ++ pair ∷ []) (length kvv) ≡ some pair
elem-append [] pair = refl
elem-append (p ∷ kvv) pair = elem-append kvv pair

-- Bytes added under a new key by KV_VECTOR_AddHexNumber come back from KV_VECTOR_GetHexNumber into
-- any buffer that is large enough.
pub get_hex_number-add_hex_number :
    (kvv : List KvPair) (key buf : Bytes) (len : ℕ)
    → HasNot key kvv
    → All IsByte buf
    → length buf ≤ len
    → kv_vector_get_hex_number (kv_vector_add_hex_number kvv key buf) key len ≡ ok buf
unfolding kv_vector_get_hex_number kv_vector_add_hex_number kv_vector_add kv_vector_find_key
get_hex_number-add_hex_number kvv key buf len h hb fits = ground (
  arith,
  loop-add kvv key (some (to_hex buf)) 0 h,
  elem-append kvv (key, some (to_hex buf)),
  string_to_binary-to_hex buf len hb fits,
)
