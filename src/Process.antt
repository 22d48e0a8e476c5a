-- ===== src/Process.antt =====
-- process/process.go and process/process_repository.go: the running workflows. Go shares a process
-- by pointer; here processes stand in a heap and a pointer is an address, so that a change made
-- through the repository is seen by whoever holds the process. The global repository is made on
-- first use and empty until then. A payload has a type `P` that the process does not look into.
pub mod Kill
pub mod Store
pub mod Registry
pub mod Examples
use Prim.Native.String
use nflow_runtime.Common.{
  ℕ, zero, suc, String, Bool, true, false, Option, none, some, List, [], ◌∷◌, ◌++◌, length, leb,
  ltb, if◌then◌else◌,
}
use nflow_runtime.Common.Int.{ℤ, pos}
use nflow_runtime.Common.Dict.{Dict, lookup, insert, delete, keys}

-- `callback` holds the messages that the channel of one slot buffers, `ws` the number of the
-- websocket connection.
pub record Process (P : Type 0) : Type 0 where
  pub uuid : String
  pub uuid_box_current : String
  pub state : String
  pub type_name : String
  pub payload : Option P
  pub killeable : Bool
  pub callback : Option (List String)
  pub flag_exit : ℤ
  pub ws : Option ℕ

-- `closed` are the websocket connections that were closed.
pub record World (P : Type 0) : Type 0 where
  pub heap : List (Process P)
  pub repo : Dict ℕ
  pub closed : List ℕ

abbrev pub exit_message : String
exit_message = "{\"error_exit\":\"exit\"}"

module _ {P : Type 0} where
  unfoldable pub get_elem? : List (Process P) → ℕ → Option (Process P)
  get_elem? [] n = none
  get_elem? (p ∷ ps) zero = some p
  get_elem? (p ∷ ps) (suc n) = get_elem? ps n

  -- A write through the pointer `n`.
  unfoldable pub modify : (Process P → Process P) → ℕ → List (Process P) → List (Process P)
  modify f n [] = []
  modify f zero (p ∷ ps) = f p ∷ ps
  modify f (suc n) (p ∷ ps) = p ∷ modify f n ps

  -- What `SendCallback` does to the channel: a full one drops the message.
  unfoldable pub send : String → Process P → Process P
  send message p = elim p.callback [
    | none ↦ p
    | some buffer ↦
        if ltb (length buffer) 1 then record p { callback = some (buffer ++ message ∷ []) } else p
  ]

  unfoldable pub send_callback : World P → (p : ℕ) → String → World P
  unfolding modify send
  send_callback w p message = record w { heap = modify (send message) p w.heap }

  -- `<-p.Callback`: `none` waits.
  unfoldable pub receive : World P → (p : ℕ) → Option (String × World P)
  unfolding get_elem? modify
  receive w a = elim (get_elem? w.heap a) [
    | none ↦ none
    | some p ↦ elim p.callback [
      | none ↦ none
      | some buffer ↦ elim buffer [
        | [] ↦ none
        | message ∷ rest ↦
            some (
              message,
              record w { heap = modify (λ q. record q { callback = some rest }) a w.heap },
            )
      ]
    ]
  ]

  unfoldable pub set_flag_exit : ℤ → Process P → Process P
  set_flag_exit value p = record p { flag_exit = value }

  unfoldable pub close_ws : Option (Process P) → List ℕ → List ℕ
  close_ws none closed = closed
  close_ws (some p) closed = elim p.ws [ none ↦ closed | some c ↦ c ∷ closed ]

  unfoldable pub w_kill : String → World P → World P
  unfolding send_callback close_ws modify get_elem? set_flag_exit send
  w_kill wid w = elim (lookup wid w.repo) [
    | none ↦ w
    | some a ↦
        send_callback
          (record w {
            heap = modify (set_flag_exit (pos 1)) a w.heap;
            closed = close_ws (get_elem? w.heap a) w.closed;
          })
          a exit_message
  ]

  unfoldable pub kill_each : List String → World P → World P
  kill_each [] w = w
  kill_each (k ∷ ks) w = kill_each ks (w_kill k w)

  unfoldable pub w_kill_all : World P → World P
  unfolding kill_each keys
  w_kill_all w = kill_each (keys w.repo) w

  unfoldable pub new_process : String → Option (List String) → Process P
  new_process wid callback = record {
    uuid = wid;
    uuid_box_current = "";
    state = "wait";
    type_name = "";
    payload = none;
    killeable = true;
    callback = callback;
    flag_exit = pos 0;
    ws = none;
  }

  unfoldable pub store : Process P → String → World P → ℕ × World P
  store p wid w = (
    length w.heap,
    record w { heap = w.heap ++ p ∷ []; repo = insert wid (length w.heap) w.repo },
  )

  unfoldable pub create_process : String → World P → ℕ × World P
  unfolding new_process store
  create_process wid w = store (new_process wid none) wid w

  unfoldable pub create_process_with_callback : String → World P → ℕ × World P
  unfolding new_process store
  create_process_with_callback wid w = store (new_process wid (some [])) wid w

  -- `p.Close()`, where the UUID of `p` is `wid`
  unfoldable pub close : String → World P → World P
  close wid w = record w { repo = delete wid w.repo }

  unfoldable pub exists_process : String → World P → Bool
  exists_process wid w = elim (lookup wid w.repo) [ none ↦ false | some a ↦ true ]

  -- `GetFlagExit` through the pointer `a`
  unfoldable pub get_flag_exit : World P → ℕ → Option ℤ
  unfolding get_elem?
  get_flag_exit w a = elim (get_elem? w.heap a) [ none ↦ none | some p ↦ some p.flag_exit ]

  -- The lines of `Ps`, one for each process.
  unfoldable pub ps_line : String → Option (Process P) → String
  ps_line key none = ""
  ps_line key (some p) = String.◌++◌ "\n" (
      String.◌++◌ key (
        String.◌++◌ " - " (
          String.◌++◌ p.uuid_box_current
            (String.◌++◌ " - " (elim p.payload [ none ↦ "<nil>" | some x ↦ "<payload>" ])))))

  unfoldable pub ps_lines : List (Process P) → Dict ℕ → String
  unfolding ps_line get_elem?
  ps_lines heap [] = ""
  ps_lines heap ((key, a) ∷ rest) =
      String.◌++◌ (ps_line key (get_elem? heap a)) (ps_lines heap rest)

  unfoldable pub ps : World P → String
  unfolding ps_lines
  ps w = ps_lines w.heap w.repo
