-- ===== src/DataModel/Paths/Buffer.antt =====
-- src/core/data_model.c: DM_PRIV_FormPath_FromDM where the buffer is full.
use usp_agent_stomp.Common.{
  ℕ, zero, suc, ◌≤◌, ◌≡◌, refl, false, List, ◌∷◌, arith, ltb, take, Bytes, str_eq,
}
use usp_agent_stomp.Result.{out_of_fuel}
use usp_agent_stomp.DataModel.Paths.{multi_separator, form_path_loop}

-- A byte of the schema path that has no room is neither copied nor passed over: no number of rounds
-- is enough.
form_path-stuck :
    (fuel : ℕ) (c : ℕ) (src : Bytes) (numbers : List ℕ) (len : ℕ) (buf : Bytes)
    → str_eq (take 3 (c ∷ src)) multi_separator ≡ false
    → len ≤ 1
    → form_path_loop fuel (c ∷ src) numbers len buf ≡ out_of_fuel
unfolding form_path_loop
form_path-stuck zero c src numbers len buf text full = refl
form_path-stuck (suc fuel) c src numbers len buf text full =
    let small : ltb 1 len ≡ false = ground arith in
    rw (text, small) (form_path-stuck fuel c src numbers len buf text full)
