-- ===== src/Tunnel/Connected.antt =====
-- What AutoConnect comes to.
use mathlib.Core.Path.{subst}
use tools_acloud.Tunnel.{
  Shell, port_mapping, ssh_tunnel_args, open_tunnel, connect_adb, unless_called_process_error,
  vnc_mapping, port_or_free, auto_connect,
}
use tools_acloud.Exec.{pure, Result, and_then, Exec, ok, handle, err, ◌>>=◌}
use tools_acloud.Base.{
  true, String, Option, ℕ, List, some, ◌≡◌, ◌∷◌, none, [], inl, ◌⊎◌, refl, inr, Bool-cases, sym,
  false,
}
use tools_acloud.Report.{given}
use tools_acloud.DevicePool.{Ports}
use tools_acloud.Errors.{Exc, is_instance, called_process_error}

module _ {W : Type 0} (io : Shell W) where
  -- The port that is given, or one that was picked.
  abbrev pub PortOf : Option ℕ → ℕ → Type 0
  PortOf (some p) q = q ≡ p
  PortOf none q = (u : W) × (v : W) × (io.pick_free_port u ≡ (ok q, v))

  -- The local port for a target, if there is one.
  abbrev pub VncOf : Option ℕ → Option ℕ → Type 0
  VncOf none o = o ≡ none
  VncOf (some target) none = ⊥
  VncOf (some target) (some q) = (u : W) × (v : W) × (io.pick_free_port u ≡ (ok q, v))

  abbrev pub vnc_lines : Option ℕ → Option ℕ → List String
  vnc_lines (some target) (some q) = port_mapping q target ∷ []
  vnc_lines _ _ = []

  module _ (ip_addr rsa_key_file : String) (target_vnc_port : Option ℕ) (target_adb_port : ℕ)
      (ssh_user : String) (client_adb_port : Option ℕ) (extra_args_ssh_tunnel : Option String) where
    -- The tunnel for these local ports.
    abbrev pub tunnel : ℕ → Option ℕ → Exec W (Unit {0})
    tunnel p o =
        open_tunnel io
          (ssh_tunnel_args rsa_key_file
            (port_mapping p target_adb_port ∷ vnc_lines (given target_vnc_port) o) ssh_user ip_addr)
          extra_args_ssh_tunnel

    -- The ports that the tunnel is for: picked, or the one that was given.
    abbrev pub Chosen : ℕ → Option ℕ → Type 0
    Chosen p o = PortOf (given client_adb_port) p × VncOf (given target_vnc_port) o

    abbrev pub Connected : Result Ports × W → Type 0
    Connected (ok ports, _) =
        (p : ℕ) × (o : Option ℕ) × (u : W) × (v : W) × Chosen p o
        × (((tunnel p o u ≡ (ok tt, v)) × (ports ≡ record { vnc = o; adb = some p }))
            ⊎ ((e : Exc) × (tunnel p o u ≡ (err e, v))
                × (is_instance e called_process_error ≡ true)
                × (ports ≡ record { vnc = none; adb = none })))
    Connected (err e, _) =
        (is_instance e called_process_error ≡ false)
        ⊎ ((u : W) × (v : W) × (io.pick_free_port u ≡ (err e, v)))

    adb_after :
        (p : ℕ) (o : Option ℕ) (u v : W)
        → Chosen p o
        → tunnel p o u ≡ (ok tt, v)
        → (x : Result (Unit {0}) × W)
        → Connected (
            and_then
              (handle x pure (unless_called_process_error io tt))
              (λ _. pure (record { vnc = o; adb = some p })))
    unfolding unless_called_process_error
    adb_after p o u v c t (ok _, w) = (p, o, u, v, c, inl (t, refl))
    adb_after p o u v c t (err e, w) = elim (Bool-cases (is_instance e called_process_error)) [
      | inl y ↦ rw y (p, o, u, v, c, inl (t, refl))
      | inr n ↦ rw n (inl n)
    ]

    tunnel_after :
        (p : ℕ) (o : Option ℕ) (u : W)
        → Chosen p o
        → (x : Result (Unit {0}) × W) → tunnel p o u ≡ x
        → Connected (
            handle x
              (λ _. connect_adb io o p)
              (unless_called_process_error io (record { vnc = none; adb = none })))
    unfolding connect_adb unless_called_process_error
    tunnel_after p o u c (ok _, v) h = adb_after p o u v c h _
    tunnel_after p o u c (err e, v) h = elim (Bool-cases (is_instance e called_process_error)) [
      | inl y ↦ rw y (p, o, u, v, c, inr (e, h, y, refl))
      | inr n ↦ rw n (inl n)
    ]

    -- The part of AutoConnect after the port for adb is known.
    abbrev with_port : ℕ → Exec W Ports
    with_port p = vnc_mapping io (given target_vnc_port) >>= λ (o, mappings) w.
        handle
          (open_tunnel io
            (ssh_tunnel_args rsa_key_file (port_mapping p target_adb_port ∷ mappings) ssh_user
              ip_addr)
            extra_args_ssh_tunnel w)
          (λ _. connect_adb io o p)
          (unless_called_process_error io (record { vnc = none; adb = none }))

    -- What the mapping for vnc is.
    abbrev Mapped : Option ℕ → Result (Option ℕ × List String) × W → Type 0
    Mapped target (ok (o, mappings), v) = VncOf target o × (mappings ≡ vnc_lines target o)
    Mapped target (err e, v) = (u : W) × (v : W) × (io.pick_free_port u ≡ (err e, v))

    vnc_mapping-Mapped : (target : Option ℕ) (w : W) → Mapped target (vnc_mapping io target w)
    unfolding vnc_mapping
    vnc_mapping-Mapped none w = (refl, refl)
    vnc_mapping-Mapped (some target) w = picked (io.pick_free_port w) refl
      where
        picked :
            (x : Result ℕ × W)
            → io.pick_free_port w ≡ x
            → Mapped
                (some target)
                (and_then x (λ port. pure (some port, port_mapping port target ∷ [])))
        picked (ok q, v) h = ((w, v, h), refl)
        picked (err e, v) h = (w, v, h)

    port_after : (p : ℕ) (w : W) → PortOf (given client_adb_port) p → Connected (with_port p w)
    port_after p w c =
        by_mapping (vnc_mapping io (given target_vnc_port) w)
          (vnc_mapping-Mapped (given target_vnc_port) w)
      where
        by_mapping :
            (x : Result (Option ℕ × List String) × W)
            → Mapped (given target_vnc_port) x
            → Connected (
                and_then x (λ (o, mappings) w.
                  handle
                    (open_tunnel io
                      (ssh_tunnel_args rsa_key_file
                        (port_mapping p target_adb_port ∷ mappings)
                        ssh_user
                        ip_addr)
                      extra_args_ssh_tunnel
                      w)
                    (λ _. connect_adb io o p)
                    (unless_called_process_error io (record { vnc = none; adb = none }))))
        by_mapping (err e, v) h = inr h
        by_mapping (ok (o, mappings), v) (a, same) =
            subst
              (λ l. Connected (
                handle
                  (open_tunnel io
                    (ssh_tunnel_args rsa_key_file (port_mapping p target_adb_port ∷ l) ssh_user
                      ip_addr)
                    extra_args_ssh_tunnel v)
                  (λ _. connect_adb io o p)
                  (unless_called_process_error io (record { vnc = none; adb = none }))))
              (sym same) (tunnel_after p o v (c, a) (tunnel p o v) refl)

    client_port :
        (o : Option ℕ) (w : W)
        → ((p : ℕ) (v : W) → PortOf o p → Connected (with_port p v))
        → Connected (and_then (port_or_free io o w) with_port)
    unfolding port_or_free
    client_port (some p) w h = h p w refl
    client_port none w h = picked (io.pick_free_port w) refl
      where
        picked : (x : Result ℕ × W) → io.pick_free_port w ≡ x → Connected (and_then x with_port)
        picked (ok p, v) e = h p v (w, v, e)
        picked (err x, v) e = inr (w, v, e)

    -- AutoConnect opens one tunnel: from the client's port, or one that was picked, to the port of adb,
    -- and from a port that was picked to that of vnc, if there is one. If ssh succeeds it gives these two
    -- ports, also where `adb connect` has failed; if ssh fails with a CalledProcessError it gives none;
    -- and no CalledProcessError leaves it, unless picking a port raised it.
    pub auto_connect-Connected :
        (w : W)
        → Connected (
            auto_connect io ip_addr rsa_key_file target_vnc_port target_adb_port ssh_user
              client_adb_port extra_args_ssh_tunnel w)
    unfolding auto_connect
    auto_connect-Connected w = client_port (given client_adb_port) w port_after
