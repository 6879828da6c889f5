-- ===== src/Boot/Netif.antt =====
-- main/hal/hal_netif.c: the start of the network, in both builds. What the handlers do with the
-- events of Wi-Fi is in Hal.Wifi.
use esp32_ipc.Base.{ℕ, Bool, true, false, ◌==◌, if◌then◌else◌}
use esp32_ipc.Hal.Device.Outcome.{gives}
use esp32_ipc.Esp.{esp_err_no_mem}
use esp32_ipc.Boot.{
  ◌>>=◌, ◌>>◌, Drivers, M, done, assign, not_null, ask, on_error, event_group_create, netif_init,
  event_loop_create, register_link, register_got_ip, wait_got_ip, create_wifi_sta, wifi_init,
  wifi_set_mode, wifi_set_config, wifi_start, eth_new_mac, eth_new_phy, netif_new,
  eth_driver_install, eth_new_glue, netif_attach, eth_start,
}

module _ (d : Drivers) where
  -- `netif_start` of the build for Ethernet, up to the driver.
  unfoldable pub eth_driver : M ℕ
  eth_driver = do
    mac ← ask d eth_new_mac
    phy ← ask d eth_new_phy
    not_null (if mac.handle == 0 then 0 else phy.handle) esp_err_no_mem
    eth ← on_error d (eth_driver_install mac.handle phy.handle)
    gives eth.handle

  -- The rest of it: the interface on the driver, the handlers and the start.
  unfoldable pub attach_and_start : ℕ → M (Unit {0})
  attach_and_start eth = do
    netif ← ask d netif_new
    glue ← ask d (eth_new_glue eth)
    on_error d (netif_attach netif.handle glue.handle)
    on_error d register_link
    on_error d register_got_ip
    on_error d (eth_start eth)
    done

  -- `netif_start` of the build for Ethernet.
  unfoldable pub netif_start_eth : M (Unit {0})
  netif_start_eth = do eth ← eth_driver; attach_and_start eth

  -- `netif_start` of the build for Wi-Fi.
  unfoldable pub netif_start_wifi : M (Unit {0})
  netif_start_wifi = do
    ask d create_wifi_sta
    on_error d wifi_init
    on_error d register_link
    on_error d register_got_ip
    on_error d wifi_set_mode
    on_error d wifi_set_config
    on_error d wifi_start
    done

  -- `netif_start`, by `CONFIG_APP_NETIF_ETH`.
  unfoldable pub netif_start : Bool → M (Unit {0})
  netif_start true = netif_start_eth
  netif_start false = netif_start_wifi

  -- `hal_netif_start_and_wait_ip` up to `netif_start`.
  unfoldable pub before_start : M (Unit {0})
  before_start = do
    group ← ask d event_group_create
    assign (λ b. record b { event_group = group.handle })
    not_null group.handle esp_err_no_mem
    on_error d netif_init
    on_error d event_loop_create
    done

  -- `hal_netif_start_and_wait_ip`. It waits without a limit: a run in which no address comes makes no
  -- call after `wait_got_ip`.
  unfoldable pub start_and_wait_ip : Bool → M (Unit {0})
  start_and_wait_ip eth = do before_start; netif_start eth; ask d wait_got_ip; done
