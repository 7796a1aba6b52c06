-- ===== src/DataModel/Registry/Roots.antt =====
-- src/core/data_model.c: the tree that DATA_MODEL_Init starts with.
use usp_agent_stomp.Common.{◌≡◌, refl, inl, inr, [], arith, ◌==◌, if◌then◌else◌, ==_iff, Bool-cases}
use usp_agent_stomp.Result.{ok}
use usp_agent_stomp.DataModel.Instances.{zeros}
use usp_agent_stomp.DataModel.Paths.{object_single_instance}
use usp_agent_stomp.DataModel.Registry.{
  Registry, new_node, device_node_name, internal_node_name, empty_registry, create_roots,
}
use usp_agent_stomp.DataModel.Registry.Tree.{IsRegistered, IsTree}

-- The tree of the two roots.
abbrev pub roots : Registry
roots = record empty_registry {
  nodes = λ n.
      if n == 2
      then new_node internal_node_name object_single_instance internal_node_name 0
      else if n == 1
      then new_node device_node_name object_single_instance device_node_name 0
      else new_node [] object_single_instance [] 0;
  num_nodes = 2;
  root_device_node = 1;
  root_internal_node = 2;
}

pub create_roots-roots : create_roots ≡ ok roots
unfolding create_roots
create_roots-roots = refl

device-IsRegistered : IsRegistered roots 1
unfolding zeros
device-IsRegistered = record {
  children = tt;
  few = omega arith;
  counted = refl;
  padded = refl;
  tables = tt;
  older = tt;
  deep = λ d. cc;
  last_table = λ d. absurd (cc);
}

internal-IsRegistered : IsRegistered roots 2
unfolding zeros
internal-IsRegistered = record {
  children = tt;
  few = omega arith;
  counted = refl;
  padded = refl;
  tables = tt;
  older = tt;
  deep = λ d. cc;
  last_table = λ d. absurd (cc);
}

pub roots-IsTree : IsTree roots
unfolding zeros
roots-IsTree = record {
  device_root = omega arith;
  internal_root = omega arith;
  device_top = refl;
  internal_top = refl;
  registered = λ n a. elim (Bool-cases (n == 2)) [
    | inl two ↦ rw ((==_iff n 2).0 two) internal-IsRegistered
    | inr other ↦ let e : n ≡ 1 = ground arith in rw e device-IsRegistered
  ];
}
