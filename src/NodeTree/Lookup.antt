-- ===== src/NodeTree/Lookup.antt =====
-- What `getProcess` finds, and when it stays inside the tables.
use embedded_linux_iot_gatew.Prelude.{
  unsome, Text, text_eq, text_eq_iff, ◌≡◌, ◌≢◌, refl, sym, ap, ap₂, ◌∙◌, ◌↔◌, ◌⊎◌, inl, inr, Bool,
  true, false, ◌||◌, Option, none, some, List, [], ◌∷◌, arith, Bool-cases, Option-cases,
}
use embedded_linux_iot_gatew.NodeTree.{
  Process, TableName, Node, Tables, find_node, service, with_process, walk,
}

-- The node is the first one of the name, and no empty name stands before it.
abbrev pub Finds : List Node → Text → Node → Type 0
Finds [] token m = ⊥
Finds (n ∷ ns) token m =
    (n.servicename ≢ [])
    × (((n.servicename ≡ token) × (n ≡ m)) ⊎ ((n.servicename ≢ token) × Finds ns token m))

-- Some name is empty, which ends the table.
unfoldable pub ends : List Node → Bool
ends [] = false
ends (n ∷ ns) = text_eq n.servicename [] || ends ns

unfoldable pub has_name : Text → List Node → Bool
has_name token [] = false
has_name token (n ∷ ns) = text_eq n.servicename token || has_name token ns

find_node-Finds :
    (ns : List Node) (token : Text) (m : Node)
    → (find_node ns token ≡ some (some m)) ↔ Finds ns token m
unfolding find_node
find_node-Finds [] token m = (λ h. cc, λ f. absurd f)
find_node-Finds (n ∷ ns) token m =
    let (to, from) = find_node-Finds ns token m in
    let (empty_to, empty_from) = text_eq_iff n.servicename [] in
    let (name_to, name_from) = text_eq_iff n.servicename token in
    elim (Bool-cases (text_eq n.servicename [])) [
      | inl empty ↦ rw empty (λ h. cc, λ f. absurd (f.0 (empty_to empty)))
      | inr full ↦
          let full' : n.servicename ≢ [] = λ e. cc (empty_from e, full) in
          elim (Bool-cases (text_eq n.servicename token)) [
            | inl same ↦
                rw (full, same)
                  (
                    λ h. (full', inl (name_to same, cc h)),
                    λ f. elim f.1 [
                      | inl (_, e) ↦ cc e
                      | inr (differs, _) ↦ absurd (differs (name_to same))
                    ],
                  )
            | inr other ↦
                let other' : n.servicename ≢ token = λ e. cc (name_from e, other) in
                rw (full, other)
                  (
                    λ h. (full', inr (other', to h)),
                    λ f. elim f.1 [ inl (e, _) ↦ absurd (other' e) | inr (_, later) ↦ from later ],
                  )
          ]
    ]

service_iff :
    (n m : Node) (p : Process) → (service n ≡ some (m, p)) ↔ ((n ≡ m) × (m.process ≡ some p))
service_iff n m p = elim (Option-cases n.process) [
  | inl e ↦ (
    λ h. cc (sym (ap (with_process n) e) ∙ h),
    λ (same, r). cc (e, r, ap (λ (k : Node). k.process) same),
  )
  | inr (q, e) ↦
      let opened : service n ≡ some (n, q) = ap (with_process n) e in
      (
        λ h.
            let pair : ◌≡◌ {A = Node × Process} (n, q) (m, p) = unsome (sym opened ∙ h) in
            let same : n ≡ m = ap (λ (x : Node × Process). x.0) pair in
            let same' : q ≡ p = ap (λ (x : Node × Process). x.1) pair in
            (same, sym (ap (λ (k : Node). k.process) same) ∙ e ∙ ap some same'),
        λ (same, r).
            let same' : q ≡ p = unsome (sym e ∙ ap (λ (k : Node). k.process) same ∙ r) in
            opened ∙ ap₂ (λ k x. some (k, x)) same same',
      )
]

module _ (tables : Tables) where
  -- The tokens lead from the table to the node, one table further for each token but the last.
  abbrev pub Leads : TableName → List Text → Node → Type 0
  Leads level [] m = ⊥
  Leads level (token ∷ []) m = Finds (tables level) token m
  Leads level (token ∷ t ∷ ts) m =
      (n : Node) × (next : TableName) × Finds (tables level) token n
      × (n.nextnode ≡ some next)
      × Leads next (t ∷ ts) m

  module _ (m : Node) (p : Process) where
    next-Leads :
        (o : Option TableName) (ts : List Text)
        → ((next : TableName)
            → (walk tables (some next) ts ≡ some (some (m, p)))
              ↔ (Leads next ts m × (m.process ≡ some p)))
        → (walk tables o ts ≡ some (some (m, p)))
          ↔ (((next : TableName) × (o ≡ some next) × Leads next ts m) × (m.process ≡ some p))
    unfolding walk
    next-Leads none [] ih = (λ h. cc, λ ((next, e, l), q). cc)
    next-Leads none (t ∷ ts) ih = (λ h. cc, λ ((next, e, l), q). cc)
    next-Leads (some level) ts ih = (
      λ h. let (l, q) = (ih level).0 h in ((level, refl, l), q),
      λ ((next, e, l), q). ap (λ o. walk tables o ts) e ∙ (ih next).1 (l, q),
    )

    pub walk-Leads :
        (level : TableName) (ts : List Text)
        → (walk tables (some level) ts ≡ some (some (m, p)))
          ↔ (Leads level ts m × (m.process ≡ some p))
    unfolding walk
    walk-Leads level [] = (λ h. cc, λ l. absurd l.0)
    walk-Leads level (token ∷ []) =
        let finds = λ (n : Node). find_node-Finds (tables level) token n in
        elim (Option-cases (find_node (tables level) token)) [
          | inl e ↦ rw e (λ h. cc, λ (f, _). cc ((finds m).1 f, e))
          | inr (none, e) ↦ rw e (λ h. cc, λ (f, _). cc ((finds m).1 f, e))
          | inr (some n, e) ↦ rw e (
            λ h.
                let (same, q) = (service_iff n m p).0 (unsome h) in
                ((finds m).0 (e ∙ ap (λ k. some (some k)) same), q),
            λ (f, q).
                let same : n ≡ m = unsome (unsome (sym e ∙ (finds m).1 f)) in
                ap some ((service_iff n m p).1 (same, q)),
          )
        ]
    walk-Leads level (token ∷ t ∷ ts) =
        let finds = λ (n : Node). find_node-Finds (tables level) token n in
        elim (Option-cases (find_node (tables level) token)) [
          | inl e ↦ rw e (λ h. cc, λ ((n, _, f, _, _), _). cc ((finds n).1 f, e))
          | inr (none, e) ↦ rw e (λ h. cc, λ ((n, _, f, _, _), _). cc ((finds n).1 f, e))
          | inr (some n, e) ↦
              let (to, from) = next-Leads n.nextnode (t ∷ ts) (λ next. walk-Leads next (t ∷ ts)) in
              rw e (
                λ h. let ((next, en, l), q) = to h in ((n, next, (finds n).0 e, en, l), q),
                λ ((k, next, f, en, l), q).
                    let same : n ≡ k = unsome (unsome (sym e ∙ (finds k).1 f)) in
                    from ((next, ap (λ (x : Node). x.nextnode) same ∙ en, l), q),
              )
        ]

  found_or_not :
      (ns : List Node) (token : Text)
      → ends ns ≡ true
      → (o : Option Node) × (find_node ns token ≡ some o)
  unfolding ends find_node
  found_or_not [] token h = cc
  found_or_not (n ∷ ns) token h = elim (Bool-cases (text_eq n.servicename [])) [
    | inl empty ↦ (none, rw empty)
    | inr full ↦ elim (Bool-cases (text_eq n.servicename token)) [
      | inl same ↦ (some n, rw (full, same))
      | inr other ↦ let (o, e) = found_or_not ns token (ground arith) in (o, rw (full, other) e)
    ]
  ]

  pub walk_total :
      (level : Option TableName) (ts : List Text)
      → ((l : TableName) → ends (tables l) ≡ true)
      → (r : Option (Node × Process)) × (walk tables level ts ≡ some r)
  unfolding walk
  walk_total level [] closed = (none, refl)
  walk_total none (token ∷ ts) closed = (none, refl)
  walk_total (some level) (token ∷ []) closed =
      let (o, e) = found_or_not (tables level) token (closed level) in
      elim (Option-cases o) [ inl n ↦ (none, rw (e, n)) | inr (n, s) ↦ (service n, rw (e, s)) ]
  walk_total (some level) (token ∷ t ∷ ts) closed =
      let (o, e) = found_or_not (tables level) token (closed level) in
      elim (Option-cases o) [
        | inl n ↦ (none, rw (e, n))
        | inr (n, s) ↦ let (r, run) = walk_total n.nextnode (t ∷ ts) closed in (r, rw (e, s) run)
      ]
