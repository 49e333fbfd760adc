-- ===== src/Helpers/Upper.antt =====
-- The prototypes of the other 40 helper functions of src/gpl/spec_prototypes.cpp, in the order of
-- their numbers. A field that the source leaves out is the first enumerator, or false.
use ebpf_verifier.Base.{true, false}
use ebpf_verifier.Helpers.{Ret, Arg, FuncProto, helper}

abbrev pub set_hash_invalid_proto : FuncProto
set_hash_invalid_proto =
    helper "set_hash_invalid" Ret.integer Arg.ptr_to_ctx Arg.dontcare Arg.dontcare Arg.dontcare
      Arg.dontcare false

abbrev pub get_numa_node_id_proto : FuncProto
get_numa_node_id_proto =
    helper "get_numa_node_id" Ret.integer Arg.dontcare Arg.dontcare Arg.dontcare Arg.dontcare
      Arg.dontcare false

abbrev pub skb_change_head_proto : FuncProto
skb_change_head_proto =
    helper "skb_change_head" Ret.integer Arg.ptr_to_ctx Arg.anything Arg.anything Arg.dontcare
      Arg.dontcare false

abbrev pub xdp_adjust_head_proto : FuncProto
xdp_adjust_head_proto =
    helper "xdp_adjust_head" Ret.integer Arg.ptr_to_ctx Arg.anything Arg.dontcare Arg.dontcare
      Arg.dontcare false

abbrev pub probe_read_str_proto : FuncProto
probe_read_str_proto =
    helper "probe_read_str" Ret.integer Arg.ptr_to_uninit_mem Arg.const_size_or_zero Arg.anything
      Arg.dontcare Arg.dontcare false

abbrev pub get_socket_cookie_proto : FuncProto
get_socket_cookie_proto =
    helper "get_socket_cookie" Ret.integer Arg.ptr_to_ctx Arg.dontcare Arg.dontcare Arg.dontcare
      Arg.dontcare false

abbrev pub get_socket_uid_proto : FuncProto
get_socket_uid_proto =
    helper "get_socket_uid" Ret.integer Arg.ptr_to_ctx Arg.dontcare Arg.dontcare Arg.dontcare
      Arg.dontcare false

abbrev pub set_hash_proto : FuncProto
set_hash_proto =
    helper "set_hash" Ret.integer Arg.ptr_to_ctx Arg.anything Arg.dontcare Arg.dontcare Arg.dontcare
      false

abbrev pub setsockopt_proto : FuncProto
setsockopt_proto =
    helper "setsockopt" Ret.integer Arg.ptr_to_ctx Arg.anything Arg.anything Arg.ptr_to_mem
      Arg.const_size false

abbrev pub skb_adjust_room_proto : FuncProto
skb_adjust_room_proto =
    helper "skb_adjust_room" Ret.integer Arg.ptr_to_ctx Arg.anything Arg.anything Arg.anything
      Arg.dontcare false

abbrev pub redirect_map_proto : FuncProto
redirect_map_proto =
    helper "redirect_map" Ret.integer Arg.const_shared_ptr Arg.anything Arg.anything Arg.dontcare
      Arg.dontcare false

abbrev pub sk_redirect_map_proto : FuncProto
sk_redirect_map_proto =
    helper "sk_redirect_map" Ret.integer Arg.ptr_to_ctx Arg.const_shared_ptr Arg.anything
      Arg.anything Arg.dontcare false

abbrev pub sock_map_update_proto : FuncProto
sock_map_update_proto =
    helper "sock_map_update" Ret.integer Arg.ptr_to_ctx Arg.const_shared_ptr Arg.ptr_to_map_key
      Arg.anything Arg.dontcare true

abbrev pub xdp_adjust_meta_proto : FuncProto
xdp_adjust_meta_proto =
    helper "xdp_adjust_meta" Ret.integer Arg.ptr_to_ctx Arg.anything Arg.dontcare Arg.dontcare
      Arg.dontcare false

abbrev pub perf_event_read_value_proto : FuncProto
perf_event_read_value_proto =
    helper "perf_event_read_value" Ret.integer Arg.const_shared_ptr Arg.anything
      Arg.ptr_to_uninit_mem Arg.const_size Arg.dontcare false

abbrev pub perf_prog_read_value_proto : FuncProto
perf_prog_read_value_proto =
    helper "perf_prog_read_value" Ret.integer Arg.ptr_to_ctx Arg.ptr_to_uninit_mem Arg.const_size
      Arg.dontcare Arg.dontcare false

abbrev pub getsockopt_proto : FuncProto
getsockopt_proto =
    helper "getsockopt" Ret.integer Arg.ptr_to_ctx Arg.anything Arg.anything Arg.ptr_to_uninit_mem
      Arg.const_size false

abbrev pub override_return_proto : FuncProto
override_return_proto =
    helper "override_return" Ret.integer Arg.ptr_to_ctx Arg.anything Arg.dontcare Arg.dontcare
      Arg.dontcare false

abbrev pub sock_ops_cb_flags_set_proto : FuncProto
sock_ops_cb_flags_set_proto =
    helper "sock_ops_cb_flags_set" Ret.integer Arg.ptr_to_ctx Arg.anything Arg.dontcare Arg.dontcare
      Arg.dontcare false

abbrev pub msg_redirect_map_proto : FuncProto
msg_redirect_map_proto =
    helper "msg_redirect_map" Ret.integer Arg.ptr_to_ctx Arg.const_shared_ptr Arg.anything
      Arg.anything Arg.dontcare false

abbrev pub msg_apply_bytes_proto : FuncProto
msg_apply_bytes_proto =
    helper "msg_apply_bytes" Ret.integer Arg.ptr_to_ctx Arg.anything Arg.dontcare Arg.dontcare
      Arg.dontcare false

abbrev pub msg_cork_bytes_proto : FuncProto
msg_cork_bytes_proto =
    helper "msg_cork_bytes" Ret.integer Arg.ptr_to_ctx Arg.anything Arg.dontcare Arg.dontcare
      Arg.dontcare false

abbrev pub msg_pull_data_proto : FuncProto
msg_pull_data_proto =
    helper "msg_pull_data" Ret.integer Arg.ptr_to_ctx Arg.anything Arg.anything Arg.anything
      Arg.dontcare false

abbrev pub bind_proto : FuncProto
bind_proto =
    helper "bind" Ret.integer Arg.ptr_to_ctx Arg.ptr_to_mem Arg.const_size Arg.dontcare Arg.dontcare
      false

abbrev pub xdp_adjust_tail_proto : FuncProto
xdp_adjust_tail_proto =
    helper "xdp_adjust_tail" Ret.integer Arg.ptr_to_ctx Arg.anything Arg.dontcare Arg.dontcare
      Arg.dontcare false

abbrev pub skb_get_xfrm_state_proto : FuncProto
skb_get_xfrm_state_proto =
    helper "skb_get_xfrm_state" Ret.integer Arg.ptr_to_ctx Arg.anything Arg.ptr_to_uninit_mem
      Arg.const_size Arg.anything false

abbrev pub get_stack_proto : FuncProto
get_stack_proto =
    helper "get_stack" Ret.integer Arg.ptr_to_ctx Arg.ptr_to_uninit_mem Arg.const_size_or_zero
      Arg.anything Arg.dontcare false

abbrev pub skb_load_bytes_relative_proto : FuncProto
skb_load_bytes_relative_proto =
    helper "skb_load_bytes_relative" Ret.integer Arg.ptr_to_ctx Arg.anything Arg.ptr_to_uninit_mem
      Arg.const_size Arg.anything false

abbrev pub xdp_fib_lookup_proto : FuncProto
xdp_fib_lookup_proto =
    helper "xdp_fib_lookup" Ret.integer Arg.ptr_to_ctx Arg.ptr_to_mem Arg.const_size Arg.anything
      Arg.dontcare false

abbrev pub sock_hash_update_proto : FuncProto
sock_hash_update_proto =
    helper "sock_hash_update" Ret.integer Arg.ptr_to_ctx Arg.const_shared_ptr Arg.ptr_to_map_key
      Arg.anything Arg.dontcare true

abbrev pub msg_redirect_hash_proto : FuncProto
msg_redirect_hash_proto =
    helper "msg_redirect_hash" Ret.integer Arg.ptr_to_ctx Arg.const_shared_ptr Arg.ptr_to_map_key
      Arg.anything Arg.dontcare false

abbrev pub sk_redirect_hash_proto : FuncProto
sk_redirect_hash_proto =
    helper "sk_redirect_hash" Ret.integer Arg.ptr_to_ctx Arg.const_shared_ptr Arg.ptr_to_map_key
      Arg.anything Arg.dontcare false

abbrev pub lwt_push_encap_proto : FuncProto
lwt_push_encap_proto =
    helper "lwt_push_encap" Ret.integer Arg.ptr_to_ctx Arg.anything Arg.ptr_to_mem Arg.const_size
      Arg.dontcare false

abbrev pub lwt_seg6_store_bytes_proto : FuncProto
lwt_seg6_store_bytes_proto =
    helper "lwt_seg6_store_bytes" Ret.integer Arg.ptr_to_ctx Arg.anything Arg.ptr_to_mem
      Arg.const_size Arg.dontcare false

abbrev pub lwt_seg6_adjust_srh_proto : FuncProto
lwt_seg6_adjust_srh_proto =
    helper "lwt_seg6_adjust_srh" Ret.integer Arg.ptr_to_ctx Arg.anything Arg.anything Arg.dontcare
      Arg.dontcare false

abbrev pub lwt_seg6_action_proto : FuncProto
lwt_seg6_action_proto =
    helper "lwt_seg6_action" Ret.integer Arg.ptr_to_ctx Arg.anything Arg.ptr_to_mem Arg.const_size
      Arg.dontcare false

abbrev pub rc_repeat_proto : FuncProto
rc_repeat_proto =
    helper "rc_repeat" Ret.integer Arg.ptr_to_ctx Arg.dontcare Arg.dontcare Arg.dontcare
      Arg.dontcare false

abbrev pub rc_keydown_proto : FuncProto
rc_keydown_proto =
    helper "rc_keydown" Ret.integer Arg.ptr_to_ctx Arg.anything Arg.anything Arg.anything
      Arg.dontcare false

abbrev pub skb_cgroup_id_proto : FuncProto
skb_cgroup_id_proto =
    helper "skb_cgroup_id" Ret.integer Arg.ptr_to_ctx Arg.dontcare Arg.dontcare Arg.dontcare
      Arg.dontcare false

abbrev pub get_current_cgroup_id_proto : FuncProto
get_current_cgroup_id_proto =
    helper "get_current_cgroup_id" Ret.integer Arg.dontcare Arg.dontcare Arg.dontcare Arg.dontcare
      Arg.dontcare false
