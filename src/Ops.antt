-- ===== src/Ops.antt =====
-- plugins/controller/model_mgrs.go: the loop that takes one operation after another from the channel
-- of messages, and renders when rendering is enabled and something has changed. The managers and
-- RenderAll are parameters: a state of the whole system, and what they make of it. `none` is a panic.
pub mod Rendering
mod Examples
use mathlib.Core.Option
use sfc_controller.Common.{
  ℕ, ◌+◌, Text, Bool, true, false, ◌&&◌, Option, none, some, List, [], ◌∷◌, ltb, ◌==◌, not, text_eq,
  if◌then◌else◌, ◌>>=◌,
}

pub data OpCode : Type 0 where
  render : OpCode
  enable_renderer : OpCode
  disable_renderer : OpCode
  create_update : OpCode
  delete : OpCode
  resync_contiv_network_pod_map : OpCode

-- OperationalMsg, whose data is of any type.
pub record Msg (Data : Type 0) : Type 0 where
  pub model : Text
  pub op_code : OpCode
  pub payload : Data

-- What the loop calls of a registered manager. The errors of the handlers are dropped.
pub record Manager (Data System : Type 0) : Type 0 where
  pub model_type_name : Text
  pub handle_cu : Data → System → Option System
  pub handle_d : Data → System → Option System

-- The local variables of the loop, with the seconds of `then`, and the system.
pub record Loop (System : Type 0) : Type 0 where
  pub then_second : ℕ
  pub is_rendering_enabled : Bool
  pub is_rendering_pending : Bool
  pub system : System

-- The values at the start of the loop.
unfoldable pub start : {System : Type 0} → ℕ → System → Loop System
start now s = record {
  then_second = now;
  is_rendering_enabled = false;
  is_rendering_pending = false;
  system = s;
}

module _ {Data System : Type 0} where
  unfoldable pub find_model_manager :
      Text → List (Manager Data System) → Option (Manager Data System)
  find_model_manager name [] = none
  find_model_manager name (entry ∷ rest) =
      if text_eq entry.model_type_name name then some entry else find_model_manager name rest

-- RegisteredManagers; SyncNetworkPodToNodeMap with its result; a transaction around RenderAll.
module _ {Data System : Type 0} (managers : List (Manager Data System))
    (sync : System → Option (System × Bool)) (render_all : System → Option System)
    (no_data : Data) where
  -- The switch on the operation. A manager that is not found is a nil interface.
  unfoldable pub dispatch : Msg Data → Loop System → Option (Loop System)
  dispatch msg l = elim msg.op_code [
    | render ↦ some (record l { is_rendering_pending = true })
    | disable_renderer ↦ some (record l { is_rendering_enabled = false })
    | enable_renderer ↦ some (record l { is_rendering_enabled = true })
    | create_update ↦ do
      m ← find_model_manager msg.model managers
      s ← m.handle_cu msg.payload l.system
      some (record l { is_rendering_pending = true; system = s })
    | delete ↦ do
      m ← find_model_manager msg.model managers
      s ← m.handle_d msg.payload l.system
      some (record l { is_rendering_pending = true; system = s })
    | resync_contiv_network_pod_map ↦ do
      (s, changed) ← sync l.system
      some (record l {
        is_rendering_pending = if changed then true else l.is_rendering_pending;
        system = s;
      })
  ]

  -- What follows the switch: the arguments are len of the channel and the second of the clock, and
  -- the result has the messages that the loop adds to its own queue.
  unfoldable pub render_if_pending : ℕ → ℕ → Loop System → Option (Loop System × List (Msg Data))
  render_if_pending num_in_chan now l =
      if l.is_rendering_enabled && l.is_rendering_pending
      then (if not (num_in_chan == 0)
          then (if ltb (l.then_second + 1) now
              then (do
                s ← render_all l.system
                some (
                  record l { then_second = now; is_rendering_pending = false; system = s },
                  (record { model = []; op_code = render; payload = no_data }) ∷ [],
                ))
              else some (l, []))
          else (do
            s ← render_all l.system
            some (record l { then_second = now; is_rendering_pending = false; system = s }, [])))
      else some (l, [])

  unfoldable pub process_msg :
      ℕ → ℕ → Msg Data → Loop System → Option (Loop System × List (Msg Data))
  process_msg num_in_chan now msg l = dispatch msg l >>= render_if_pending num_in_chan now

  -- The loop over messages with the seconds at which they are handled. OperationalMsgChannel is
  -- made with no buffer, so its len is 0.
  unfoldable pub process_operational_messages :
      List (Msg Data × ℕ) → Loop System → Option (Loop System)
  process_operational_messages [] l = some l
  process_operational_messages ((msg, now) ∷ rest) l = do
    (l', sent) ← process_msg 0 now msg l
    process_operational_messages rest l'
