-- ===== src/Stomp/Connection/Params.antt =====
-- src/core/stomp.c: CopyStompConnParamsToNext, CopyStompConnParamsFromNext and
-- AllocateStringIfChanged.
use usp_agent_stomp.Common.{
  ◌≡◌, refl, Option, none, some, arith, if◌then◌else◌, Bytes, str_eq, str_eq_iff,
}
use usp_agent_stomp.Stomp.Types.{ConnParams, Conn}

-- strcmp'd copies are kept: the value is that of the new string either way.
unfoldable pub allocate_string_if_changed : Option Bytes → Option Bytes → Option Bytes
allocate_string_if_changed none new_str = new_str
allocate_string_if_changed (some cur) none = none
allocate_string_if_changed (some cur) (some new) = if str_eq cur new then some cur else some new

pub allocate_string_if_changed_lem :
    (cur new : Option Bytes) → allocate_string_if_changed cur new ≡ new
unfolding allocate_string_if_changed
allocate_string_if_changed_lem none new = refl
allocate_string_if_changed_lem (some cur) none = refl
allocate_string_if_changed_lem (some cur) (some new) = ground (arith, str_eq_iff cur new)

unfoldable pub copy_params : ConnParams → ConnParams → ConnParams
copy_params old new = record new {
  enable = old.enable;
  host = allocate_string_if_changed old.host new.host;
  username = allocate_string_if_changed old.username new.username;
  password = allocate_string_if_changed old.password new.password;
  virtual_host = allocate_string_if_changed old.virtual_host new.virtual_host;
}

unfoldable pub copy_stomp_conn_params_to_next : Conn → ConnParams → Option Bytes → Conn
unfolding copy_params
copy_stomp_conn_params_to_next sc sp stomp_queue = record sc {
  next_conn_params = copy_params sc.next_conn_params sp;
  next_provisionned_queue = allocate_string_if_changed sc.next_provisionned_queue stomp_queue;
}

unfoldable pub copy_stomp_conn_params_from_next : Conn → Conn
unfolding copy_params
copy_stomp_conn_params_from_next sc = record sc {
  params = copy_params sc.params sc.next_conn_params;
  provisionned_queue = allocate_string_if_changed sc.provisionned_queue sc.next_provisionned_queue;
}

-- All parameters are taken over, but for `enable`.
pub copy_stomp_conn_params_from_next_lem :
    (sc : Conn)
    → copy_stomp_conn_params_from_next sc ≡ record sc {
      params = record sc.next_conn_params { enable = sc.params.enable };
      provisionned_queue = sc.next_provisionned_queue;
    }
unfolding copy_stomp_conn_params_from_next copy_params
copy_stomp_conn_params_from_next_lem sc =
    let p = sc.next_conn_params in
    rw
      (
        allocate_string_if_changed_lem sc.params.host p.host,
        allocate_string_if_changed_lem sc.params.username p.username,
        allocate_string_if_changed_lem sc.params.password p.password,
        allocate_string_if_changed_lem sc.params.virtual_host p.virtual_host,
        allocate_string_if_changed_lem sc.provisionned_queue sc.next_provisionned_queue,
      )
      refl
