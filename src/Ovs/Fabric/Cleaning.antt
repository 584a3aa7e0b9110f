-- ===== src/Ovs/Fabric/Cleaning.antt =====
-- Which commands CreateLocalIfc runs, and that it does not leave an interface behind.
use kube_examples.Common.{
  ℕ, ◌≡◌, ◌⊎◌, refl, sym, ap, ◌∙◌, subst, arith, Option, none, some, List, [], ◌∷◌, ◌++◌,
  Option-cases, inl, inr,
}
use mathlib.Core.List.{append_assoc}
use kube_examples.GoText.{Text, codes}
use kube_examples.GoText.Pieces.{trim_right}
use kube_examples.Ovs.Commands.{
  Cmd, new_create_ifc_cmd, new_get_ifc_of_port_cmd, new_delete_bridge_port_cmd, new_add_flows_cmd,
}
use kube_examples.Ovs.Flows.{mac_string, local_ifc_flows}
use kube_examples.Ovs.Parsing.{LocalNetIfc, parse_of_port}
use kube_examples.Ovs.Fabric.{
  CmdResult, OvsFabric, OvsError, command_failed, run_cmd, run_simple, create_ifc, delete_ifc,
  add_flows, add_local_ifc_flows, get_ifc_of_port, connect_local, connect_or_delete, set_up_local,
  and_then, on_error,
}

module _ (ovs : List Cmd → Cmd → CmdResult) (ip_string : List ℕ → Text) where
  -- The state behind a command.
  abbrev after_cmd : OvsFabric → Cmd → OvsFabric
  after_cmd f cmd = record f { commands = f.commands ++ cmd ∷ [] }

  -- A step ran one command: without an error, or with the error that the command has.
  abbrev Ran : OvsFabric → Cmd → Option OvsError × OvsFabric → Type 0
  Ran f cmd r =
      (r.1 ≡ after_cmd f cmd)
      × (((r.0 ≡ none) × ((ovs f.commands cmd).err ≡ none))
          ⊎ ((e : OvsError) × (t : Text) × (r.0 ≡ some e) × ((ovs f.commands cmd).err ≡ some t)))

  run_simple-Ran : (f : OvsFabric) (cmd : Cmd) → Ran f cmd (run_simple ovs ip_string f cmd)
  unfolding run_simple run_cmd
  run_simple-Ran f cmd = elim (Option-cases ((ovs f.commands cmd).err)) [
    | inl e ↦ rw (run_simple, e) (refl, inl (refl, refl))
    | inr (t, e) ↦ rw (run_simple, e) (refl, inr (_, t, refl, refl))
  ]

  add_flows-Ran :
      (f : OvsFabric) (flows : List Text)
      → Ran f (new_add_flows_cmd f.bridge flows) (add_flows ovs ip_string f flows)
  unfolding add_flows run_cmd
  add_flows-Ran f flows =
      elim (Option-cases ((ovs f.commands (new_add_flows_cmd f.bridge flows)).err)) [
        | inl e ↦ rw (add_flows, e) (refl, inl (refl, refl))
        | inr (t, e) ↦ rw (add_flows, e) (refl, inr (_, t, refl, refl))
      ]

  module _ (ifc : LocalNetIfc) where
    abbrev create_cmd : OvsFabric → Cmd
    create_cmd f = new_create_ifc_cmd f.bridge ifc.name (mac_string ifc.guest_mac)

    abbrev add_cmd : OvsFabric → ℕ → Cmd
    add_cmd f of_port =
        new_add_flows_cmd f.bridge
          (local_ifc_flows of_port ifc.vni ifc.guest_mac (ip_string ifc.guest_ip))

    abbrev flows_at : ℕ → List Text
    flows_at of_port = local_ifc_flows of_port ifc.vni ifc.guest_mac (ip_string ifc.guest_ip)

    abbrev get_cmd : Cmd
    get_cmd = new_get_ifc_of_port_cmd ifc.name

    abbrev delete_cmd : OvsFabric → Cmd
    delete_cmd f = new_delete_bridge_port_cmd f.bridge ifc.name

    -- The commands that were run since a state, on the same bridge.
    record Since (f : OvsFabric) (cmds : List Cmd) (g : OvsFabric) : Type 0 where
      ran : g.commands ≡ f.commands ++ cmds
      same_bridge : g.bridge ≡ f.bridge

    extend_run :
        (f g h : OvsFabric) (cmds : List Cmd) (cmd : Cmd)
        → Since f cmds g
        → h ≡ after_cmd g cmd
        → Since f (cmds ++ cmd ∷ []) h
    extend_run f g h cmds cmd s e = rw e record {
      ran = ap (λ l. l ++ cmd ∷ []) s.ran ∙ append_assoc f.commands cmds (cmd ∷ []);
      same_bridge = s.same_bridge;
    }

    -- A command fails, or does not, behind those that were run.
    abbrev pub Fails : List Cmd → Cmd → Type 0
    Fails before cmd = (t : Text) × ((ovs before cmd).err ≡ some t)

    abbrev pub Works : List Cmd → Cmd → Type 0
    Works before cmd = (ovs before cmd).err ≡ none

    -- The port that Open vSwitch has for the interface.
    abbrev pub port_at : List Cmd → ℕ
    port_at before = parse_of_port (trim_right (codes "\n") (ovs before get_cmd).out)

    -- What the rest of CreateLocalIfc runs, once the interface is there.
    abbrev Connected : OvsFabric → Option OvsError × OvsFabric → Type 0
    Connected f r =
        let add = add_cmd f (port_at f.commands) in
        let behind_get = f.commands ++ get_cmd ∷ [] in
        ((r.0 ≡ none)
          × Works f.commands get_cmd
          × Works behind_get add
          × Since f (get_cmd ∷ add ∷ []) r.1)
        ⊎ ((e : OvsError) × (r.0 ≡ some e)
            × ((Fails f.commands get_cmd × Since f (get_cmd ∷ []) r.1)
                ⊎ (Works f.commands get_cmd
                    × Fails behind_get add
                    × Since f (get_cmd ∷ add ∷ []) r.1)))

    start_run : (f g : OvsFabric) (cmd : Cmd) → g ≡ after_cmd f cmd → Since f (cmd ∷ []) g
    start_run f g cmd e = rw e record { ran = refl; same_bridge = refl }

    flows_added :
        (f : OvsFabric) (r : Option OvsError × OvsFabric)
        → Works f.commands get_cmd
        → Ran (after_cmd f get_cmd) (add_cmd f (port_at f.commands)) r
        → Connected f r
    flows_added f r got (state, ran) =
        let since =
          extend_run f (after_cmd f get_cmd) r.1 (get_cmd ∷ []) (add_cmd f (port_at f.commands))
            (start_run f (after_cmd f get_cmd) get_cmd refl) state in
        elim ran [
          | inl (done, e) ↦ inl (done, got, e, since)
          | inr (e, t, failed, q) ↦ inr (e, failed, inr (got, (t, q), since))
        ]

    connect_local-Connected : (f : OvsFabric) → Connected f (connect_local ovs ip_string f ifc)
    unfolding connect_local get_ifc_of_port run_cmd add_local_ifc_flows
    connect_local-Connected f = elim (Option-cases ((ovs f.commands get_cmd).err)) [
      | inl e ↦
          let code : connect_local ovs ip_string f ifc
              ≡ add_flows ovs ip_string (after_cmd f get_cmd) (flows_at (port_at f.commands)) =
            rw (connect_local, get_ifc_of_port, e) refl in
          subst (Connected f) (sym code) (flows_added f _ e (add_flows-Ran (after_cmd f get_cmd) _))
      | inr (t, e) ↦
          let code : connect_local ovs ip_string f ifc ≡ (
            some (command_failed get_cmd t (trim_right (codes "\n") (ovs f.commands get_cmd).out)),
            after_cmd f get_cmd,
          ) =
            rw (connect_local, get_ifc_of_port, e) refl in
          subst (Connected f) (sym code)
            (inr (_, refl, inl ((t, e), start_run f (after_cmd f get_cmd) get_cmd refl)))
    ]

    -- What was run for the interface. Without an error the three commands that create it, read its
    -- port and add the flows with that port were run, and worked. With an error the first one failed,
    -- and it was all; or a later one failed, and the command that deletes the interface came next.
    abbrev pub CleansUp : OvsFabric → Option OvsError × OvsFabric → Type 0
    CleansUp f r =
        let create = create_cmd f in
        let behind_create = f.commands ++ create ∷ [] in
        let add = add_cmd f (port_at behind_create) in
        let behind_get = behind_create ++ get_cmd ∷ [] in
        ((r.0 ≡ none)
          × Works f.commands create
          × Works behind_create get_cmd
          × Works behind_get add
          × (r.1.commands ≡ f.commands ++ create ∷ get_cmd ∷ add ∷ []))
        ⊎ ((e : OvsError) × (r.0 ≡ some e)
            × ((Fails f.commands create × (r.1.commands ≡ behind_create))
                ⊎ ((Works f.commands create
                      × Fails behind_create get_cmd
                      × (r.1.commands ≡ f.commands ++ create ∷ get_cmd ∷ delete_cmd f ∷ []))
                    ⊎ (Works f.commands create
                        × Works behind_create get_cmd
                        × Fails behind_get add
                        × (r.1.commands
                            ≡ f.commands ++ create ∷ get_cmd ∷ add ∷ delete_cmd f ∷ [])))))

    -- The commands behind the deletion.
    deleted_behind :
        (f g : OvsFabric) (mid : List Cmd)
        → Since (after_cmd f (create_cmd f)) mid g
        → (delete_ifc ovs ip_string g ifc.name).1.commands
          ≡ f.commands ++ create_cmd f ∷ (mid ++ delete_cmd f ∷ [])
    unfolding delete_ifc
    deleted_behind f g mid s =
        let state = (run_simple-Ran g (delete_cmd g)).0 in
        ap (λ h. h.commands) state
        ∙ ap (λ b. g.commands ++ new_delete_bridge_port_cmd b ifc.name ∷ []) s.same_bridge
        ∙ ap (λ l. l ++ delete_cmd f ∷ []) s.ran
        ∙ append_assoc (f.commands ++ create_cmd f ∷ []) mid (delete_cmd f ∷ [])
        ∙ append_assoc f.commands (create_cmd f ∷ []) (mid ++ delete_cmd f ∷ [])

    cleaned :
        (f : OvsFabric) (r : Option OvsError × OvsFabric)
        → Works f.commands (create_cmd f)
        → Connected (after_cmd f (create_cmd f)) r
        → CleansUp f (on_error r (λ g. (delete_ifc ovs ip_string g ifc.name).1))
    cleaned f (none, g) made (inl (e, got, added, s)) =
        inl (refl, made, got, added, s.ran ∙ append_assoc f.commands (create_cmd f ∷ []) _)
    cleaned f (some x, g) made (inl (e, got, added, s)) = ground arith
    cleaned f (none, g) made (inr (x, e, s)) = ground arith
    cleaned f (some y, g) made (inr (x, e, inl (bad, s))) =
        inr (y, refl, inr (inl (made, bad, deleted_behind f g _ s)))
    cleaned f (some y, g) made (inr (x, e, inr (got, bad, s))) =
        inr (y, refl, inr (inr (made, got, bad, deleted_behind f g _ s)))

    created :
        (f : OvsFabric) (r : Option OvsError × OvsFabric)
        → Ran f (create_cmd f) r
        → CleansUp f (and_then r (λ g. connect_or_delete ovs ip_string g ifc))
    unfolding connect_or_delete
    created f (some e, g) (state, inl (d, q)) = ground arith
    created f (some e, g) (state, inr (x, t, d, q)) =
        inr (e, refl, inl ((t, q), ap (λ h. h.commands) state))
    created f (none, g) (state, inr (x, t, d, q)) = ground arith
    created f (none, g) (state, inl (d, q)) =
        rw state (cleaned f _ q (connect_local-Connected (after_cmd f (create_cmd f))))

    -- What CreateLocalIfc runs once it has the lock. Without an error the commands that create the
    -- interface, read its port, and add the flows with that port were run, and all three worked. With
    -- an error either the creation failed and nothing else was run; or one of the other two commands
    -- failed, and the interface was deleted again next.
    pub set_up_local-CleansUp : (f : OvsFabric) → CleansUp f (set_up_local ovs ip_string f ifc)
    unfolding set_up_local create_ifc
    set_up_local-CleansUp f = created f _ (run_simple-Ran f (create_cmd f))
