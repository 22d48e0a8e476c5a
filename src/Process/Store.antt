-- ===== src/Process/Store.antt =====
-- The store of processes against what an ID stands for: nothing, or a running process with its exit
-- flag.
use nflow_runtime.Common.{
  ℕ, zero, suc, ◌≡◌, ◌≢◌, refl, sym, ap, ◌∙◌, inl, inr, false, Option, none, some, List, [], ◌∷◌,
  ◌++◌, String, eq_iff, arith, length, Bool-cases, Option-cases, ◌==◌, ◌⊎◌, if◌then◌else◌, str_eq,
}
use nflow_runtime.Common.Int.{ℤ, pos}
use nflow_runtime.Common.Dict.{lookup, insert, keys, lookup-insert, lookup-delete}
use nflow_runtime.Process.{
  Process, World, get_elem?, modify, send, send_callback, receive, set_flag_exit, w_kill, kill_each,
  w_kill_all, store, create_process, create_process_with_callback, close, get_flag_exit,
}
use nflow_runtime.Process.Kill.{
  Listed, lookup-Listed, get_elem?-modify_same, get_elem?-modify_other, get_elem?-append, killed,
  w_kill-reached, w_kill-other, w_kill-repo, killed-flag_exit,
}

-- The ways in which the program touches the store; a send and a receive go through a pointer.
pub data Op : Type 0 where
  creates forks kills closes : (wid : String) → Op
  kills_all : Op
  sends : (a : ℕ) (message : String) → Op
  receives : (a : ℕ) → Op

-- What an operation makes of the process of one ID, `none` where there is none.
unfoldable pub marked : Option ℤ → Option ℤ
marked none = none
marked (some flag) = some (pos 1)

marked_twice : (s : Option ℤ) → marked (marked s) ≡ marked s
unfolding marked
marked_twice none = refl
marked_twice (some flag) = refl

unfoldable pub expected : Op → String → Option ℤ → Option ℤ
unfolding marked
expected (creates i) wid s = if str_eq i wid then some (pos 0) else s
expected (forks i) wid s = if str_eq i wid then some (pos 0) else s
expected (kills i) wid s = if str_eq i wid then marked s else s
expected (closes i) wid s = if str_eq i wid then none else s
expected kills_all wid s = marked s
expected (sends a message) wid s = s
expected (receives a) wid s = s

unfoldable pub expected_all : List Op → String → Option ℤ → Option ℤ
unfolding expected
expected_all [] wid s = s
expected_all (op ∷ ops) wid s = expected_all ops wid (expected op wid s)

module _ {P : Type 0} where
  unfoldable pub apply : World P → Op → World P
  unfolding create_process create_process_with_callback w_kill close w_kill_all send_callback
      receive
  apply w (creates wid) = (create_process wid w).1
  apply w (forks wid) = (create_process_with_callback wid w).1
  apply w (kills wid) = w_kill wid w
  apply w (closes wid) = close wid w
  apply w kills_all = w_kill_all w
  apply w (sends a message) = send_callback w a message
  apply w (receives a) = elim (receive w a) [ none ↦ w | some (message, w') ↦ w' ]

  unfoldable pub apply_all : World P → List Op → World P
  unfolding apply
  apply_all w [] = w
  apply_all w (op ∷ ops) = apply_all (apply w op) ops

  -- The exit flag of the process that is registered under `wid`.
  unfoldable pub flag_of : String → World P → Option ℤ
  unfolding get_flag_exit
  flag_of wid w = elim (lookup wid w.repo) [ none ↦ none | some a ↦ get_flag_exit w a ]

  -- Each process is registered under its own UUID.
  abbrev pub IsNamed : World P → Type 0
  IsNamed w =
      (wid : String) (a : ℕ)
      → lookup wid w.repo ≡ some a
      → (p : Process P) × (get_elem? w.heap a ≡ some p) × (p.uuid ≡ wid)

  flag_of-some :
      (w : World P) (wid : String) (a : ℕ) (p : Process P)
      → lookup wid w.repo ≡ some a
      → get_elem? w.heap a ≡ some p
      → flag_of wid w ≡ some p.flag_exit
  unfolding flag_of get_flag_exit
  flag_of-some w wid a p e h = ground (arith, e, h)

  flag_of-none : (w : World P) (wid : String) → lookup wid w.repo ≡ none → flag_of wid w ≡ none
  unfolding flag_of
  flag_of-none w wid e = ground (arith, e)

  IsNamed-same_uuids :
      (w w' : World P)
      → w'.repo ≡ w.repo
      → ((b : ℕ) (p : Process P)
          → get_elem? w.heap b ≡ some p
          → (q : Process P) × (get_elem? w'.heap b ≡ some q) × (q.uuid ≡ p.uuid))
      → IsNamed w
      → IsNamed w'
  IsNamed-same_uuids w w' same kept named wid a e =
      let (p, h, n) = named wid a (ap (lookup wid) (sym same) ∙ e) in
      let (q, h', n') = kept a p h in (q, h', n' ∙ n)

  w_kill-at :
      (w : World P) (k : String) (b : ℕ) (p : Process P)
      → get_elem? w.heap b ≡ some p
      → ((lookup k w.repo ≡ some b) × (get_elem? (w_kill k w).heap b ≡ some (killed p)))
        ⊎ ((lookup k w.repo ≢ some b) × (get_elem? (w_kill k w).heap b ≡ some p))
  w_kill-at w k b p h = elim (Option-cases (lookup k w.repo)) [
    | inl e ↦
        (let ne : lookup k w.repo ≢ some b = λ f. ground (arith, e, f) in
          inr (ne, w_kill-other w k b ne ∙ h))
    | inr (a, e) ↦ elim (Bool-cases (a == b)) [
      | inl same ↦
          (let f : lookup k w.repo ≡ some b = e ∙ ap some (ground (arith, same)) in
            inl (f, w_kill-reached w k b p f h))
      | inr differ ↦
          (let ne : lookup k w.repo ≢ some b = λ f. ground (arith, e, f, differ) in
            inr (ne, w_kill-other w k b ne ∙ h))
    ]
  ]

  killed-uuid : (p : Process P) → (killed p).uuid ≡ p.uuid
  unfolding send set_flag_exit
  killed-uuid p = ground arith

  pub w_kill-IsNamed : (w : World P) (k : String) → IsNamed w → IsNamed (w_kill k w)
  w_kill-IsNamed w k = IsNamed-same_uuids w (w_kill k w) (w_kill-repo w k) (λ b p h.
      elim (w_kill-at w k b p h) [
        | inl (e, h') ↦ (killed p, h', killed-uuid p)
        | inr (ne, h') ↦ (p, h', refl)
      ])

  pub w_kill-flag_of :
      (w : World P) (k wid : String)
      → IsNamed w
      → flag_of wid (w_kill k w) ≡ (if str_eq k wid then marked (flag_of wid w) else flag_of wid w)
  unfolding marked
  w_kill-flag_of w k wid named = elim (Option-cases (lookup wid w.repo)) [
    | inl e ↦
        let none' = flag_of-none (w_kill k w) wid (ap (lookup wid) (w_kill-repo w k) ∙ e) in
        ground (arith, none', flag_of-none w wid e)
    | inr (b, e) ↦
        let (p, h, n) = named wid b e in
        let e' = ap (lookup wid) (w_kill-repo w k) ∙ e in
        let before = flag_of-some w wid b p e h in
        elim (w_kill-at w k b p h) [
          | inl (f, h') ↦
              let (q, g, m) = named k b f in
              let same : q ≡ p = ground (arith, g, h) in
              let one : k ≡ wid = sym m ∙ ap (λ (x : Process P). x.uuid) same ∙ n in
              let after = flag_of-some (w_kill k w) wid b (killed p) e' h' in
              ground (arith, before, after, killed-flag_exit p, one, eq_iff k wid)
          | inr (ne, h') ↦
              let after = flag_of-some (w_kill k w) wid b p e' h' in
              let apart : k ≢ wid = λ f. ne (ap (λ (i : String). lookup i w.repo) f ∙ e) in
              ground (arith, before, after, apart, eq_iff k wid)
        ]
  ]

  w_kill-marked :
      (w : World P) (k wid : String)
      → IsNamed w
      → marked (flag_of wid (w_kill k w)) ≡ marked (flag_of wid w)
  w_kill-marked w k wid named = elim (Bool-cases (str_eq k wid)) [
    | inl e ↦ ap marked (w_kill-flag_of w k wid named ∙ ground (arith, e)) ∙ marked_twice _
    | inr e ↦ ap marked (w_kill-flag_of w k wid named ∙ ground (arith, e))
  ]

  kill_each-stays :
      (ks : List String) (w : World P) (wid : String)
      → IsNamed w
      → flag_of wid w ≡ marked (flag_of wid w)
      → flag_of wid (kill_each ks w) ≡ flag_of wid w
  unfolding kill_each
  kill_each-stays [] w wid named e = refl
  kill_each-stays (k ∷ ks) w wid named e =
      let kept : flag_of wid (w_kill k w) ≡ flag_of wid w =
        w_kill-flag_of w k wid named ∙ ground (arith, e) in
      kill_each-stays ks (w_kill k w) wid (w_kill-IsNamed w k named)
        (kept ∙ e ∙ ap marked (sym kept))
      ∙ kept

  kill_each-Listed :
      (ks : List String) (w : World P) (wid : String)
      → IsNamed w
      → Listed wid ks
      → flag_of wid (kill_each ks w) ≡ marked (flag_of wid w)
  unfolding kill_each
  kill_each-Listed [] w wid named l = absurd l
  kill_each-Listed (k ∷ ks) w wid named (inl same) =
      let hit : flag_of wid (w_kill k w) ≡ marked (flag_of wid w) =
        w_kill-flag_of w k wid named ∙ ground (arith, same, eq_iff k wid) in
      kill_each-stays ks (w_kill k w) wid (w_kill-IsNamed w k named)
        (hit ∙ sym (marked_twice _) ∙ ap marked (sym hit))
      ∙ hit
  kill_each-Listed (k ∷ ks) w wid named (inr later) =
      kill_each-Listed ks (w_kill k w) wid (w_kill-IsNamed w k named) later
      ∙ w_kill-marked w k wid named

  pub kill_each-IsNamed : (ks : List String) (w : World P) → IsNamed w → IsNamed (kill_each ks w)
  unfolding kill_each
  kill_each-IsNamed [] w named = named
  kill_each-IsNamed (k ∷ ks) w named = kill_each-IsNamed ks (w_kill k w) (w_kill-IsNamed w k named)

  pub w_kill_all-flag_of :
      (w : World P) (wid : String) → IsNamed w → flag_of wid (w_kill_all w) ≡ marked (flag_of wid w)
  unfolding w_kill_all marked
  w_kill_all-flag_of w wid named = elim (Option-cases (lookup wid w.repo)) [
    | inl e ↦
        let s = flag_of-none w wid e in
        kill_each-stays (keys w.repo) w wid named (s ∙ ap marked (sym s)) ∙ s ∙ ap marked (sym s)
    | inr (a, e) ↦ kill_each-Listed (keys w.repo) w wid named (lookup-Listed wid a w.repo e)
  ]

  pub close-IsNamed : (w : World P) (wid : String) → IsNamed w → IsNamed (close wid w)
  unfolding close
  close-IsNamed w wid named j a e = named j a (ground (arith, e, lookup-delete wid j w.repo))

  pub close-flag_of :
      (w : World P) (i wid : String)
      → flag_of wid (close i w) ≡ (if str_eq i wid then none else flag_of wid w)
  unfolding close flag_of get_flag_exit
  close-flag_of w i wid = ground (arith, lookup-delete i wid w.repo)

  get_elem?-old :
      (ps : List (Process P)) (q : Process P) (b : ℕ) (p : Process P)
      → get_elem? ps b ≡ some p
      → get_elem? (ps ++ q ∷ []) b ≡ some p
  unfolding get_elem?
  get_elem?-old [] q b p e = absurd (ground (arith, e))
  get_elem?-old (x ∷ ps) q zero p e = e
  get_elem?-old (x ∷ ps) q (suc b) p e = get_elem?-old ps q b p e

  store-at :
      (q : Process P) (i wid : String) (w : World P) (a : ℕ)
      → lookup wid (store q i w).1.repo ≡ some a
      → ((i ≡ wid) × (get_elem? (store q i w).1.heap a ≡ some q))
        ⊎ ((str_eq i wid ≡ false) × (lookup wid w.repo ≡ some a))
  unfolding store
  store-at q i wid w a e = elim (Bool-cases (str_eq i wid)) [
    | inl f ↦
        let at : length w.heap ≡ a =
          ground (arith, e, f, eq_iff i wid, lookup-insert i wid (length w.heap) w.repo) in
        inl (
          ground (arith, f, eq_iff i wid),
          ap (get_elem? (w.heap ++ q ∷ [])) (sym at) ∙ get_elem?-append w.heap q,
        )
    | inr f ↦
        inr (f, ground (arith, e, f, eq_iff i wid, lookup-insert i wid (length w.heap) w.repo))
  ]

  pub store-IsNamed :
      (q : Process P) (i : String) (w : World P) → q.uuid ≡ i → IsNamed w → IsNamed (store q i w).1
  unfolding store
  store-IsNamed q i w own named wid a e = elim (store-at q i wid w a e) [
    | inl (f, h) ↦ (q, h, own ∙ f)
    | inr (f, g) ↦ (let (p, h, n) = named wid a g in (p, get_elem?-old w.heap q a p h, n))
  ]

  pub store-flag_of :
      (q : Process P) (i wid : String) (w : World P)
      → IsNamed w
      → flag_of wid (store q i w).1 ≡ (if str_eq i wid then some q.flag_exit else flag_of wid w)
  unfolding store
  store-flag_of q i wid w named = elim (Bool-cases (str_eq i wid)) [
    | inl f ↦
        let e : lookup wid (insert i (length w.heap) w.repo) ≡ some (length w.heap) =
          ground (arith, f, eq_iff i wid, lookup-insert i wid (length w.heap) w.repo) in
        flag_of-some (store q i w).1 wid (length w.heap) q e (get_elem?-append w.heap q)
        ∙ ground (arith, f)
    | inr f ↦
        let same : lookup wid (insert i (length w.heap) w.repo) ≡ lookup wid w.repo =
          ground (arith, f, eq_iff i wid, lookup-insert i wid (length w.heap) w.repo) in
        elim (Option-cases (lookup wid w.repo)) [
          | inl e ↦
              flag_of-none (store q i w).1 wid (same ∙ e)
              ∙ sym (flag_of-none w wid e)
              ∙ ground (arith, f)
          | inr (a, e) ↦
              let (p, h, n) = named wid a e in
              flag_of-some (store q i w).1 wid a p (same ∙ e) (get_elem?-old w.heap q a p h)
              ∙ sym (flag_of-some w wid a p e h)
              ∙ ground (arith, f)
        ]
  ]

  -- A write through a pointer that keeps UUID and flag of a process.
  abbrev pub Keeps : (Process P → Process P) → Type 0
  Keeps f = (p : Process P) → ((f p).uuid ≡ p.uuid) × ((f p).flag_exit ≡ p.flag_exit)

  modify-at :
      (f : Process P → Process P) (a b : ℕ) (p : Process P) (ps : List (Process P))
      → Keeps f
      → get_elem? ps b ≡ some p
      → (q : Process P) × (get_elem? (modify f a ps) b ≡ some q)
        × (q.uuid ≡ p.uuid)
        × (q.flag_exit ≡ p.flag_exit)
  modify-at f a b p ps keeps e = elim (Bool-cases (a == b)) [
    | inl same ↦
        let at : a ≡ b = ground (arith, same) in
        (
          f p,
          ap (λ (n : ℕ). get_elem? (modify f n ps) b) at ∙ get_elem?-modify_same f b p ps e,
          (keeps p).0,
          (keeps p).1,
        )
    | inr differ ↦
        (p, get_elem?-modify_other f a b ps (λ g. ground (arith, g, differ)) ∙ e, refl, refl)
  ]

  pub modify-IsNamed :
      (f : Process P → Process P) (a : ℕ) (w : World P)
      → Keeps f
      → IsNamed w
      → IsNamed (record w { heap = modify f a w.heap })
  modify-IsNamed f a w keeps =
      IsNamed-same_uuids w (record w { heap = modify f a w.heap }) refl
        (λ b p h. let (q, h', u, g) = modify-at f a b p w.heap keeps h in (q, h', u))

  pub modify-flag_of :
      (f : Process P → Process P) (a : ℕ) (w : World P) (wid : String)
      → Keeps f
      → IsNamed w
      → flag_of wid (record w { heap = modify f a w.heap }) ≡ flag_of wid w
  modify-flag_of f a w wid keeps named = elim (Option-cases (lookup wid w.repo)) [
    | inl e ↦
        flag_of-none (record w { heap = modify f a w.heap }) wid e ∙ sym (flag_of-none w wid e)
    | inr (b, e) ↦
        let (p, h, n) = named wid b e in
        let (q, h', u, g) = modify-at f a b p w.heap keeps h in
        flag_of-some (record w { heap = modify f a w.heap }) wid b q e h'
        ∙ ap some g
        ∙ sym (flag_of-some w wid b p e h)
  ]

  pub send-Keeps : (message : String) → Keeps (send message)
  unfolding send
  send-Keeps message p = (ground arith, ground arith)
