-- ===== src/DataModel/Trans/Changes.antt =====
-- src/core/data_model.c: the changes of the instances that the journal notes.
use usp_agent_stomp.Common.{ℕ, false, Option, none, some, List}
use usp_agent_stomp.Result.{UspErr, Result, ok, ◌>>=◌}
use usp_agent_stomp.DataModel.Instances.{Inst, Schema, dm_inst_vector_add, dm_inst_vector_remove}
use usp_agent_stomp.DataModel.Trans.{add_op, del_op, Dm, Outcome, External, dm_trans_add}

-- What follows the default values: an error takes the instance back out.
abbrev pub after_values :
    {W : Type 0} → External W → Schema → List ℕ → ℕ → Inst → Option UspErr → Dm W → Outcome W
after_values ext schema path node inst (some e) s =
    dm_inst_vector_remove schema inst s.vectors >>= (λ vs. ok (some e, record s { vectors = vs }))
after_values ext schema path node inst none s =
    dm_trans_add ext schema add_op path none false node inst s >>= (λ s'. ok (none, s'))

-- The end of DATA_MODEL_AddInstance (src/core/data_model.c): the instance is registered, its child
-- parameters get their default values, and the journal notes it; `default_values` is
-- AddChildParamsDefaultValues.
unfoldable pub add_instance_end :
    {W : Type 0} → External W → Schema → (Dm W → Outcome W) → List ℕ → ℕ → Inst → Dm W → Outcome W
add_instance_end ext schema default_values path node inst s = do
  vs ← dm_inst_vector_add schema inst s.vectors
  r ← default_values (record s { vectors = vs })
  after_values ext schema path node inst r.0 r.1

-- A round of DeleteChildParams_MultiInstanceObject (src/core/data_model.c), once what is nested in
-- the instance is gone.
unfoldable pub delete_child_instance :
    {W : Type 0} → External W → Schema → List ℕ → ℕ → Inst → Dm W → Result (Dm W)
delete_child_instance ext schema path node inst s = do
  vs ← dm_inst_vector_remove schema inst s.vectors
  dm_trans_add ext schema del_op path none false node inst (record s { vectors = vs })
