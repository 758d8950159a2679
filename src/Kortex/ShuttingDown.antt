-- ===== src/Kortex/ShuttingDown.antt =====
-- src/kortex_transport.cpp: what a shutdown leaves.
use kinova_gen3_driver.Prelude.{◌≡◌, refl, arith, ◌∙◌, Bool, true, false, not, ◌&&◌}
use kinova_gen3_driver.Kortex.{
  Request, close_tcp_session, close_udp_session, disconnect_tcp, disconnect_udp, Kortex, Sdk, ask,
}
use kinova_gen3_driver.Kortex.Lifecycle.{release_low_level, swallow_if, safe_shutdown}
use kinova_gen3_driver.Kortex.Reverting.{low_level-release_low_level}

-- Nothing is left of a connection.
pub record IsDown {R W : Type 0} (k : Kortex R W) : Type 0 where
  pub tcp : k.tcp ≡ false
  pub udp : k.udp ≡ false
  pub tcp_router : k.tcp_router ≡ false
  pub udp_router : k.udp_router ≡ false
  pub tcp_sess : k.tcp_sess ≡ false
  pub udp_sess : k.udp_sess ≡ false
  pub base : k.base ≡ false
  pub base_cyclic : k.base_cyclic ≡ false
  pub act_cfg : k.act_cfg ≡ false
  pub connected : k.connected ≡ false
  pub unanswered : k.unanswered ≡ false
  pub low_level : k.low_level ≡ false

module _ {R W : Type 0} (sdk : Sdk R W) where
  -- A swallowed request changes the log and the arm alone.
  abbrev Same : Kortex R W → Kortex R W → Type 0
  Same k t =
      (t.low_level ≡ k.low_level)
      × (t.unanswered ≡ k.unanswered)
      × (t.tcp ≡ k.tcp)
      × (t.udp ≡ k.udp)
      × (t.tcp_sess ≡ k.tcp_sess)
      × (t.udp_sess ≡ k.udp_sess)

  swallow_if-Same : (b : Bool) (r : Request) (k : Kortex R W) → Same k (swallow_if sdk b r k)
  unfolding swallow_if ask
  swallow_if-Same true r k = (refl, refl, refl, refl, refl, refl)
  swallow_if-Same false r k = (refl, refl, refl, refl, refl, refl)

  nothing_left : (k : Kortex R W) → IsDown (safe_shutdown sdk k)
  unfolding safe_shutdown
  nothing_left k =
      let a = release_low_level sdk k in
      let b1 = a.tcp_sess && not a.unanswered in
      let b = swallow_if sdk b1 close_tcp_session a in
      let c1 = b.udp_sess && not b.unanswered in
      let c = swallow_if sdk c1 close_udp_session b in
      let c' = record c { unanswered = false } in
      let e = swallow_if sdk c.tcp disconnect_tcp c' in
      let kept = swallow_if-Same e.udp disconnect_udp e in
      let tcp_kept = swallow_if-Same c.tcp disconnect_tcp c' in
      record {
        tcp = refl;
        udp = refl;
        tcp_router = refl;
        udp_router = refl;
        tcp_sess = refl;
        udp_sess = refl;
        base = refl;
        base_cyclic = refl;
        act_cfg = refl;
        connected = refl;
        unanswered = kept.1 ∙ tcp_kept.1;
        low_level =
            kept.0
            ∙ tcp_kept.0
            ∙ (swallow_if-Same c1 close_udp_session b).0
            ∙ (swallow_if-Same b1 close_tcp_session a).0
            ∙ low_level-release_low_level sdk k;
      }

  -- A second shutdown asks the arm for nothing.
  safe_shutdown-again : (k : Kortex R W) → IsDown k → (safe_shutdown sdk k).calls ≡ k.calls
  unfolding safe_shutdown release_low_level swallow_if
  safe_shutdown-again k h = ground arith

  -- Whatever a connection has got to, and however the arm answers: after a shutdown nothing is left of
  -- it, no handle, no low-level servoing and no note of an unanswered revert, and a second shutdown
  -- asks the arm for nothing.
  pub safe_shutdown-IsDown :
      (k : Kortex R W)
      → let t = safe_shutdown sdk k in IsDown t × ((safe_shutdown sdk t).calls ≡ t.calls)
  safe_shutdown-IsDown k =
      let down = nothing_left k in (down, safe_shutdown-again (safe_shutdown sdk k) down)
