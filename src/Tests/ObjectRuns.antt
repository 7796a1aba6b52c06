-- ===== src/Tests/ObjectRuns.antt =====
-- src/core/data_model.c: objects that are added to a table and deleted from it.
use usp_agent_stomp.Common.{
  ℕ, ◌+◌, ◌<◌, ◌≡◌, refl, sym, ap, ◌∙◌, subst, ◌⊎◌, inl, inr, true, false, none, some, [], ◌∷◌,
  arith, ◌==◌, if◌then◌else◌, ==_iff, Bool-cases, length, codes, str_eq,
}
use usp_agent_stomp.Result.{ok, Ensures, Returns}
use usp_agent_stomp.Text.Number.{print_unsigned, print_int}
use usp_agent_stomp.DataModel.Access.{parent_inst}
use usp_agent_stomp.DataModel.Instances.{
  int_max, zeros, Inst, same_first, same_inst, is_below, has_inst, add_to, dm_inst_vector_add,
  remove_from, dm_inst_vector_remove, exists_in, dm_inst_vector_is_exist, with_node, is_of_table,
  instance_at, highest_loop, dm_inst_vector_get_next_instance, instances_loop,
  dm_inst_vector_get_instances,
}
use usp_agent_stomp.DataModel.Instances.Nested.{is_below_iff}
use usp_agent_stomp.DataModel.Instances.Numbers.{IsNext, HasSpareNumber}
use usp_agent_stomp.DataModel.Instances.Tree.{view, same_inst_iff, Holds}
use usp_agent_stomp.DataModel.Objects.{
  TableHooks, AddFlags, DelFlags, enter_instance, create_instance, data_model_add_instance,
}
use usp_agent_stomp.DataModel.Objects.Adding.{add_instance-Undone}
use usp_agent_stomp.DataModel.Objects.Deletion.{
  delete_rows, delete_child_params, data_model_delete_instance,
}
use usp_agent_stomp.DataModel.Objects.Ending.{data_model_delete_instance-IsFinite}
use usp_agent_stomp.DataModel.Objects.Finite.{IsFinite}
use usp_agent_stomp.DataModel.Objects.NewRow.{row_path, IsNewRow, data_model_add_instance_lem}
use usp_agent_stomp.DataModel.Objects.Rows.{HasParents}
use usp_agent_stomp.DataModel.Paths.{
  max_dm_path, db_param_read_write, strncpy_path_segments, parse_path,
}
use usp_agent_stomp.DataModel.Registry.{Registry, dm_priv_get_node_from_path, schema_of}
use usp_agent_stomp.DataModel.Trans.{
  add_op, del_op, Dm, External, dm_trans_is_within_transaction, dm_trans_abort, entry, dm_trans_add,
}
use usp_agent_stomp.DataModel.Trans.Changes.{add_instance_end, delete_child_instance}
use usp_agent_stomp.DataModel.Trans.Within.{started}
use usp_agent_stomp.Tests.SchemaRuns.{
  nodes, with_table, first_digit, row, with_table-IsTree, vectors,
}
use usp_agent_stomp.Vector.IntVector.{int_vector_add, int_vector_find}

-- No call-backs, and databases that do what they are asked.
abbrev ext : External (Unit {0})
ext = record {
  is_data_model_thread = λ w. true;
  sqlite3_exec = λ sql w. (true, w);
  start_trans_cb = none;
  commit_trans_cb = none;
  abort_trans_cb = none;
  notify_set_cb = λ node. none;
  notify_add_cb = λ node. none;
  notify_del_cb = λ node. none;
  notify_object_life_event = λ type path s. ok s;
  resolve_object_deletion_paths = λ w. w;
}

abbrev hooks : TableHooks (Unit {0})
hooks = record {
  validate_add_cb = λ node. none;
  add_cb = λ node. none;
  validate_del_cb = λ node. none;
  del_cb = λ node. none;
  default_values = λ path node inst s. ok (none, s);
  database_delete_parameter = λ path hash instances s. ok (none, s);
}

abbrev start : Dm (Unit {0})
start = record { vectors = vectors; cur_transaction = some []; world = tt }

abbrev del_flags : DelFlags
del_flags = record { check_deletable = true; ignore_no_instance = false }

data_model_delete_instance-IsFinite_example : IsFinite (
    data_model_delete_instance ext hooks with_table first_digit
      (codes "Device.A.7")
      del_flags
      start)
data_model_delete_instance-IsFinite_example =
    data_model_delete_instance-IsFinite ext hooks with_table first_digit (codes "Device.A.7")
      del_flags start
      (record {
        validate_del = λ node path inst s. tt;
        del = λ node path inst s. tt;
        delete_in_database = λ path hash instances s. tt;
      })
      with_table-IsTree

-- A parameter of the database below the rows.
abbrev with_db_param : Registry
with_db_param = record with_table {
  nodes =
      λ n. if n == 4 then record (nodes 4) { type = db_param_read_write; hash = 9 } else nodes n;
}

-- The path that the journal gets for a row below a deleted object ends with the name of the last
-- parameter of the row.
keeps_the_name :
    (s : Dm (Unit {0})) × (delete_rows ext
        (schema_of with_db_param)
        (delete_child_params 5 ext hooks with_db_param)
        3
        (codes "Device.A")
        (parent_inst (row 0))
        start
      ≡ ok (none, codes "Device.A.7.B", s))
    × (s.cur_transaction ≡ some (entry del_op (codes "Device.A.7.B") none 3 (row 7) ∷ []))
unfolding delete_rows delete_child_params dm_inst_vector_get_instances instances_loop
    int_vector_find int_vector_add delete_child_instance dm_inst_vector_remove remove_from is_below
    same_first dm_trans_add is_of_table zeros print_int str_eq
keeps_the_name = (_, refl, refl)

abbrev add_flags : AddFlags
add_flags = record { check_creatable = true; ignore_instance_exists = false }

-- The table gives the number 8 to a row, which the default values and the journal get.
adds_a_row :
    data_model_add_instance ext hooks with_table first_digit
      (codes "Device.A.")
      true
      add_flags
      start
    ≡ ok (
      none,
      record {
        vectors = λ t. if t == 3 then row 7 ∷ row 8 ∷ [] else vectors t;
        cur_transaction = some (entry add_op (codes "Device.A.8") none 3 (row 8) ∷ []);
        world = tt;
      },
    )
unfolding data_model_add_instance create_instance enter_instance add_instance_end
    dm_trans_is_within_transaction dm_priv_get_node_from_path parse_path strncpy_path_segments
    str_eq zeros dm_inst_vector_is_exist dm_inst_vector_get_next_instance dm_inst_vector_add
    dm_trans_add add_to has_inst same_inst highest_loop is_of_table same_first exists_in is_below
    print_unsigned
adds_a_row = refl

row_of_vectors : (t : ℕ) (x : Inst) → view vectors t x ≡ true → (t ≡ 3) × (row 7 ≡ x)
unfolding has_inst
row_of_vectors t x h = elim (Bool-cases (t == 3)) [
  | inl e ↦ ((==_iff t 3).0 e, (same_inst_iff (row 7) x).0 (ground arith))
  | inr e ↦ absurd (ground arith)
]

vectors-HasParents : HasParents vectors
unfolding has_inst is_below same_inst same_first str_eq
vectors-HasParents t x k h above below =
    let (table, same) = row_of_vectors t x h in
    let top : k ≡ 1 = omega (arith, ap (λ (q : Inst). q.order) same) in
    (
      row 7,
      rw table refl,
      sym top,
      (is_below_iff (row 7) x).0 (subst (λ q. is_below (row 7) q ≡ true) same refl),
    )

add_instance-Undone_example :
    Ensures
      (λ r.
        Returns
          (λ a. Holds (view vectors) a.1.vectors × (a.1.cur_transaction ≡ none))
          (dm_trans_abort ext (schema_of with_table) r.1))
      (data_model_add_instance ext hooks with_table first_digit
        (codes "Device.A.")
        true
        add_flags
        start)
add_instance-Undone_example =
    add_instance-Undone ext hooks with_table (view vectors) first_digit (codes "Device.A.") true
      add_flags start
      (record {
        validate_add = λ node path inst s. (refl, refl);
        add = λ node path inst s. (refl, refl);
        values = λ path node inst s. (refl, refl);
      })
      with_table-IsTree (started start (λ t x. refl) refl) (λ t x h. h) vectors-HasParents

-- What a path to the table without numbers is found with.
abbrev no_rows : Inst
no_rows = record {
  order = 0;
  instances = 0 ∷ 0 ∷ 0 ∷ 0 ∷ 0 ∷ 0 ∷ [];
  nodes = 0 ∷ 0 ∷ 0 ∷ 0 ∷ 0 ∷ 0 ∷ [];
}

finds_no_rows :
    dm_priv_get_node_from_path with_table first_digit (codes "Device.A") ≡ some (3, no_rows, false)
unfolding dm_priv_get_node_from_path parse_path strncpy_path_segments str_eq zeros
finds_no_rows = refl

root_exists : dm_inst_vector_is_exist (schema_of with_table) no_rows vectors ≡ ok true
unfolding dm_inst_vector_is_exist
root_exists = refl

one_digit_fits : (n : ℕ) → (n ≡ 1) ⊎ (n ≡ 8) → length (row_path (codes "Device.A") n) < max_dm_path
unfolding print_unsigned
one_digit_fits n (inl e) = rw e (omega arith)
one_digit_fits n (inr e) = rw e (omega arith)

next_row : (n : ℕ) → IsNext (with_node no_rows 3) (vectors 3) n → (n ≡ 1) ⊎ (n ≡ 8)
next_row n next = elim next.tight [
  | inl e ↦ inl e
  | inr (oi, there, row, number) ↦
      let (table, same) = row_of_vectors 3 oi there in
      inr (sym number ∙ ap (λ (q : Inst). instance_at q 0 + 1) (sym same))
]

row_has_spare : HasSpareNumber (with_node no_rows 3) (vectors 3)
row_has_spare oi there r =
    let (table, same) = row_of_vectors 3 oi there in
    subst (λ (q : Inst). instance_at q 0 < int_max) same (omega arith)

data_model_add_instance_lem_example : Returns (IsNewRow vectors [] (codes "Device.A") 3 no_rows) (
    data_model_add_instance ext hooks with_table first_digit
      (codes "Device.A.")
      true
      add_flags
      start)
data_model_add_instance_lem_example =
    data_model_add_instance_lem ext hooks with_table first_digit (codes "Device.A.")
      (codes "Device.A") add_flags start [] 3 no_rows
      (record {
        validate_add = λ node path inst s. (refl, (refl, refl));
        add = λ node path inst s. (refl, (refl, refl));
        values = λ path node inst s. (refl, (refl, refl));
      })
      with_table-IsTree refl (omega arith) refl finds_no_rows root_exists row_has_spare
      (λ n next. one_digit_fits n (next_row n next))
