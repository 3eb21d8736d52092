-- ===== src/Ops/Rendering.antt =====
-- When the loop renders: once for all changes that came before rendering was enabled, and after
-- each change from then on.
use sfc_controller.Common.{
  ℕ, ◌≡◌, refl, ◌∙◌, ap, ◌⊎◌, inl, inr, Bool, true, false, Option, none, some, List, [], ◌∷◌, ◌++◌,
  arith, All, ◌>>=◌, Option-cases,
}
use sfc_controller.Ops.{
  create_update, delete, enable_renderer, Msg, Manager, Loop, find_model_manager, dispatch,
  render_if_pending, process_msg, process_operational_messages, start,
}

module _ {Data System : Type 0} (managers : List (Manager Data System)) where
  -- The handler of the message's manager.
  abbrev pub changed_by : Msg Data → System → Option System
  changed_by msg s = elim (find_model_manager msg.model managers) [
    | none ↦ none
    | some m ↦ elim msg.op_code [
      | create_update ↦ m.handle_cu msg.payload s
      | delete ↦ m.handle_d msg.payload s
      | _ ↦ some s
    ]
  ]

  abbrev pub IsChange : Msg Data → Type 0
  IsChange msg = (msg.op_code ≡ create_update) ⊎ (msg.op_code ≡ delete)

  -- The handlers of the messages, one after the other.
  abbrev pub changed_by_all : List (Msg Data × ℕ) → System → Option System
  changed_by_all [] s = some s
  changed_by_all ((msg, now) ∷ rest) s = changed_by msg s >>= changed_by_all rest

  module _ (sync : System → Option (System × Bool)) (render_all : System → Option System)
      (no_data : Data) where
    abbrev run : List (Msg Data × ℕ) → Loop System → Option (Loop System)
    run = process_operational_messages managers sync render_all no_data

    dispatch_change :
        (msg : Msg Data) (l : Loop System) (s : System)
        → IsChange msg
        → changed_by msg l.system ≡ some s
        → dispatch managers sync render_all no_data msg l
          ≡ some (record l { is_rendering_pending = true; system = s })
    unfolding dispatch
    dispatch_change msg l s (inl e) h = ground (arith, e, h)
    dispatch_change msg l s (inr e) h = ground (arith, e, h)

    process_quiet :
        (msg : Msg Data) (now : ℕ) (l m : Loop System)
        → dispatch managers sync render_all no_data msg l ≡ some m
        → m.is_rendering_enabled ≡ false
        → process_msg managers sync render_all no_data 0 now msg l ≡ some (m, [])
    unfolding process_msg render_if_pending
    process_quiet msg now l m e off = ground (arith, e, off)

    process_render :
        (msg : Msg Data) (now : ℕ) (l m : Loop System) (s : System)
        → dispatch managers sync render_all no_data msg l ≡ some m
        → m.is_rendering_enabled ≡ true
        → m.is_rendering_pending ≡ true
        → render_all m.system ≡ some s
        → process_msg managers sync render_all no_data 0 now msg l
          ≡ some (record m { then_second = now; is_rendering_pending = false; system = s }, [])
    unfolding process_msg render_if_pending
    process_render msg now l m s e on pending r = ground (arith, e, on, pending, r)

    run_msg :
        (msg : Msg Data) (now : ℕ) (rest : List (Msg Data × ℕ)) (l m : Loop System)
        → process_msg managers sync render_all no_data 0 now msg l ≡ some (m, [])
        → run ((msg, now) ∷ rest) l ≡ run rest m
    run_msg msg now rest l m e = unfold process_operational_messages in ground (arith, e)

    run_step :
        (msg : Msg Data) (now : ℕ) (rest : List (Msg Data × ℕ)) (l m : Loop System)
        → dispatch managers sync render_all no_data msg l ≡ some m
        → m.is_rendering_enabled ≡ false
        → run ((msg, now) ∷ rest) l ≡ run rest m
    run_step msg now rest l m e off = run_msg msg now rest l m (process_quiet msg now l m e off)

    run_render :
        (msg : Msg Data) (now : ℕ) (rest : List (Msg Data × ℕ)) (l m : Loop System) (s : System)
        → dispatch managers sync render_all no_data msg l ≡ some m
        → m.is_rendering_enabled ≡ true
        → m.is_rendering_pending ≡ true
        → render_all m.system ≡ some s
        → run ((msg, now) ∷ rest) l
          ≡ run rest (record m { then_second = now; is_rendering_pending = false; system = s })
    run_render msg now rest l m s e on pending r =
        run_msg msg now rest l _ (process_render msg now l m s e on pending r)

    abbrev some_change : List (Msg Data × ℕ) → Bool → Bool
    some_change [] b = b
    some_change (m ∷ ms) b = true

    some_change-true : (ms : List (Msg Data × ℕ)) → some_change ms true ≡ true
    some_change-true [] = refl
    some_change-true (m ∷ ms) = refl

    run_disabled :
        (ms rest : List (Msg Data × ℕ)) (l : Loop System) (s : System)
        → l.is_rendering_enabled ≡ false
        → All (λ m. IsChange m.0) ms
        → changed_by_all ms l.system ≡ some s
        → (m : Loop System) × (run (ms ++ rest) l ≡ run rest m)
          × (m.is_rendering_enabled ≡ false)
          × (m.system ≡ s)
          × (m.is_rendering_pending ≡ some_change ms l.is_rendering_pending)
    run_disabled [] rest l s off changes e = (l, refl, off, ground (arith, e), refl)
    run_disabled ((msg, now) ∷ ms) rest l s off changes e =
        elim (Option-cases (changed_by msg l.system)) [
          | inl n ↦ absurd (ground (arith, e, n))
          | inr (s1, h) ↦
              let l1 = record l { is_rendering_pending = true; system = s1 } in
              let (m, p, q, r, w) =
                run_disabled ms rest l1 s off changes.1 (ground (arith, e, h)) in
              let d = dispatch_change msg l s1 changes.0 h in
              (m, run_step msg now (ms ++ rest) l l1 d off ∙ p, q, r, w ∙ some_change-true ms)
        ]

    dispatch_enable :
        (msg : Msg Data) (l : Loop System)
        → msg.op_code ≡ enable_renderer
        → dispatch managers sync render_all no_data msg l
          ≡ some (record l { is_rendering_enabled = true })
    unfolding dispatch
    dispatch_enable msg l e = ground (arith, e)

    -- From the start of the loop, any number of creates, updates and deletes, one at least, whose
    -- managers are there and whose handlers return, are handled in order without a rendering; the
    -- message that enables rendering then renders once, and nothing is pending after it.
    pub enable_renders_once :
        (first : Msg Data × ℕ) (ms : List (Msg Data × ℕ)) (enable : Msg Data) (t now : ℕ)
        (s s1 s2 : System)
        → All (λ m. IsChange m.0) (first ∷ ms)
        → changed_by_all (first ∷ ms) s ≡ some s1
        → render_all s1 ≡ some s2
        → enable.op_code ≡ enable_renderer
        → run ((first ∷ ms) ++ (enable, now) ∷ []) (start t s)
          ≡ some (record {
            then_second = now;
            is_rendering_enabled = true;
            is_rendering_pending = false;
            system = s2;
          })
    enable_renders_once first ms enable t now s s1 s2 changes e r on =
        let (m, p, off, sys, pending) =
          run_disabled (first ∷ ms) ((enable, now) ∷ []) (start t s) s1 (unfold start in refl)
            changes (unfold start in e) in
        p
        ∙ run_render enable now [] m (record m { is_rendering_enabled = true }) s2
            (dispatch_enable enable m on) refl pending (ap render_all sys ∙ r)
        ∙ (unfold process_operational_messages in refl)

    -- When rendering is enabled, a create, an update or a delete whose manager is there and whose
    -- handler returns is followed by a rendering before the next message, and nothing is pending after it.
    pub change_renders :
        (msg : Msg Data) (now : ℕ) (rest : List (Msg Data × ℕ)) (l : Loop System) (s s1 : System)
        → l.is_rendering_enabled ≡ true
        → IsChange msg
        → changed_by msg l.system ≡ some s
        → render_all s ≡ some s1
        → run ((msg, now) ∷ rest) l
          ≡ run rest (record {
            then_second = now;
            is_rendering_enabled = true;
            is_rendering_pending = false;
            system = s1;
          })
    change_renders msg now rest l s s1 on c e r =
        let l1 = record l { is_rendering_pending = true; system = s } in
        run_render msg now rest l l1 s1 (dispatch_change msg l s c e) on refl r ∙ rw on refl
