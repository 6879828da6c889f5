-- ===== src/Webrtc/Start.antt =====
-- main/task/task_webrtc.cpp: the start of `task_webrtc`, up to its loop.
pub mod Peers
mod Tests
use esp32_ipc.Base.{Bool, true, false, ◌==◌}
use esp32_ipc.Esp.{is_ok}
use esp32_ipc.Config.{task_peer_stack_size, task_prio_peer, task_core_peer}
use esp32_ipc.Boot.{
  Drivers, M, ◌>>=◌, ◌>>◌, assign, branch, pure, ask, peer_init, peer_deinit,
  peer_connection_create, on_ice_state, on_data_channel, signaling_connect, peer_connection_destroy,
  create_task, peer, delete_self,
}

module _ (d : Drivers) where
  -- `task_webrtc` up to its loop: whether it comes to it, or ends.
  unfoldable pub start_webrtc : M Bool
  start_webrtc = do
    ask d peer_init
    pc ← ask d peer_connection_create
    assign (λ b. record b { pc = pc.handle })
    branch (pc.handle == 0) (do ask d peer_deinit; ask d delete_self; pure false)
        (do
          ask d (on_ice_state pc.handle)
          ask d (on_data_channel pc.handle)
          ask d (signaling_connect pc.handle)
          task ← ask d (create_task peer task_peer_stack_size task_prio_peer task_core_peer)
          branch (is_ok task.err) (pure true) (do
            ask d (peer_connection_destroy pc.handle)
            ask d peer_deinit
            ask d delete_self
            pure false))
