-- ===== src/Helpers/Table.antt =====
-- The table of helper functions of src/gpl/spec_prototypes.cpp, with its two look-ups.
use ebpf_verifier.Base.{ℕ, Bool, ltb, ◌&&◌, none, some, List, [], ◌∷◌, length, get_elem?}
use ebpf_verifier.Helpers.{FuncProto, Prototypes}
use ebpf_verifier.Helpers.Lower.{
  unspec_proto, map_lookup_elem_proto, map_update_elem_proto, map_delete_elem_proto,
  probe_read_proto, ktime_get_ns_proto, trace_printk_proto, get_prandom_u32_proto,
  get_smp_processor_id_proto, skb_store_bytes_proto, l3_csum_replace_proto, l4_csum_replace_proto,
  tail_call_proto, clone_redirect_proto, get_current_pid_tgid_proto, get_current_uid_gid_proto,
  get_current_comm_proto, get_cgroup_classid_proto, skb_vlan_push_proto, skb_vlan_pop_proto,
  skb_get_tunnel_key_proto, skb_set_tunnel_key_proto, perf_event_read_proto, redirect_proto,
  get_route_realm_proto, perf_event_output_proto, skb_load_bytes_proto, get_stackid_proto,
  csum_diff_proto, skb_get_tunnel_opt_proto, skb_set_tunnel_opt_proto, skb_change_proto_proto,
  skb_change_type_proto, skb_under_cgroup_proto, get_hash_recalc_proto, get_current_task_proto,
  probe_write_user_proto, current_task_under_cgroup_proto, skb_change_tail_proto,
  skb_pull_data_proto, csum_update_proto,
}
use ebpf_verifier.Helpers.Upper.{
  set_hash_invalid_proto, get_numa_node_id_proto, skb_change_head_proto, xdp_adjust_head_proto,
  probe_read_str_proto, get_socket_cookie_proto, get_socket_uid_proto, set_hash_proto,
  setsockopt_proto, skb_adjust_room_proto, redirect_map_proto, sk_redirect_map_proto,
  sock_map_update_proto, xdp_adjust_meta_proto, perf_event_read_value_proto,
  perf_prog_read_value_proto, getsockopt_proto, override_return_proto, sock_ops_cb_flags_set_proto,
  msg_redirect_map_proto, msg_apply_bytes_proto, msg_cork_bytes_proto, msg_pull_data_proto,
  bind_proto, xdp_adjust_tail_proto, skb_get_xfrm_state_proto, get_stack_proto,
  skb_load_bytes_relative_proto, xdp_fib_lookup_proto, sock_hash_update_proto,
  msg_redirect_hash_proto, sk_redirect_hash_proto, lwt_push_encap_proto, lwt_seg6_store_bytes_proto,
  lwt_seg6_adjust_srh_proto, lwt_seg6_action_proto, rc_repeat_proto, rc_keydown_proto,
  skb_cgroup_id_proto, get_current_cgroup_id_proto,
}

unfoldable pub prototypes : List FuncProto
prototypes =
    unspec_proto ∷ map_lookup_elem_proto ∷ map_update_elem_proto ∷ map_delete_elem_proto
    ∷ probe_read_proto ∷ ktime_get_ns_proto ∷ trace_printk_proto ∷ get_prandom_u32_proto
    ∷ get_smp_processor_id_proto ∷ skb_store_bytes_proto ∷ l3_csum_replace_proto
    ∷ l4_csum_replace_proto ∷ tail_call_proto ∷ clone_redirect_proto ∷ get_current_pid_tgid_proto
    ∷ get_current_uid_gid_proto ∷ get_current_comm_proto ∷ get_cgroup_classid_proto
    ∷ skb_vlan_push_proto ∷ skb_vlan_pop_proto ∷ skb_get_tunnel_key_proto ∷ skb_set_tunnel_key_proto
    ∷ perf_event_read_proto ∷ redirect_proto ∷ get_route_realm_proto ∷ perf_event_output_proto
    ∷ skb_load_bytes_proto ∷ get_stackid_proto ∷ csum_diff_proto ∷ skb_get_tunnel_opt_proto
    ∷ skb_set_tunnel_opt_proto ∷ skb_change_proto_proto ∷ skb_change_type_proto
    ∷ skb_under_cgroup_proto ∷ get_hash_recalc_proto ∷ get_current_task_proto
    ∷ probe_write_user_proto ∷ current_task_under_cgroup_proto ∷ skb_change_tail_proto
    ∷ skb_pull_data_proto ∷ csum_update_proto ∷ set_hash_invalid_proto ∷ get_numa_node_id_proto
    ∷ skb_change_head_proto ∷ xdp_adjust_head_proto ∷ probe_read_str_proto ∷ get_socket_cookie_proto
    ∷ get_socket_uid_proto ∷ set_hash_proto ∷ setsockopt_proto ∷ skb_adjust_room_proto
    ∷ redirect_map_proto ∷ sk_redirect_map_proto ∷ sock_map_update_proto ∷ xdp_adjust_meta_proto
    ∷ perf_event_read_value_proto ∷ perf_prog_read_value_proto ∷ getsockopt_proto
    ∷ override_return_proto ∷ sock_ops_cb_flags_set_proto ∷ msg_redirect_map_proto
    ∷ msg_apply_bytes_proto ∷ msg_cork_bytes_proto ∷ msg_pull_data_proto ∷ bind_proto
    ∷ xdp_adjust_tail_proto ∷ skb_get_xfrm_state_proto ∷ get_stack_proto
    ∷ skb_load_bytes_relative_proto ∷ xdp_fib_lookup_proto ∷ sock_hash_update_proto
    ∷ msg_redirect_hash_proto ∷ sk_redirect_hash_proto ∷ lwt_push_encap_proto
    ∷ lwt_seg6_store_bytes_proto ∷ lwt_seg6_adjust_srh_proto ∷ lwt_seg6_action_proto
    ∷ rc_repeat_proto ∷ rc_keydown_proto ∷ skb_cgroup_id_proto ∷ get_current_cgroup_id_proto ∷ []

unfoldable pub get_prototype : ℕ → FuncProto
get_prototype n = elim (get_elem? prototypes n) [ none ↦ unspec_proto | some p ↦ p ]

unfoldable pub is_valid_prototype : ℕ → Bool
is_valid_prototype n = ltb n (length prototypes) && ltb 0 n

-- The table as an argument of the decoder.
abbrev pub kernel_prototypes : Prototypes
kernel_prototypes = record {
  get_prototype = get_prototype;
  is_valid_prototype = is_valid_prototype;
}
