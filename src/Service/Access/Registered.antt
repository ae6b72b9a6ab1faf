-- ===== src/Service/Access/Registered.antt =====
-- What `initAuthFuncs` puts in its table.
use autograder_server.Service.Access.{MethodAuthFunc}
use autograder_server.Service.Access.Table.{
  AuthFuncs, AuthMap, register_all, find_auth_funcs, register_methods,
}
use mathlib.Core.List.{Memᴰ}
use mathlib.Core.List.Memᴰ.{head, tail, append_left}
use autograder_server.Base.{
  sym, ◌⊎◌, ◌∙◌, ap, eq_of_bytes_eq, subst, bytes_eq, bytes_eq_refl, eq_of_some, Option-cases,
  Bool-cases, List, refl, List, ℕ, ◌∷◌, [], inr, inl, some, none, ◌≡◌,
}

found-kept :
    (n m : List ℕ) (fs gs : List MethodAuthFunc) (table : AuthFuncs)
    → find_auth_funcs m table ≡ none
    → find_auth_funcs n table ≡ some fs
    → find_auth_funcs n ((m, gs) ∷ table) ≡ some fs
unfolding find_auth_funcs
found-kept n m fs gs table new e = elim (Bool-cases (bytes_eq m n)) [
  | inl same ↦
      let at = eq_of_bytes_eq m n same in
      absurd (
        let never : find_auth_funcs n table ≡ none =
          subst (λ t. find_auth_funcs t table ≡ none) at new in
        cc)
  | inr other ↦ rw other e
]

-- What has a chain keeps it while others are registered.
kept-register_methods :
    (n : List ℕ) (fs : List MethodAuthFunc) (ms : List (List ℕ)) (gs : List MethodAuthFunc)
    (table table' : AuthFuncs)
    → register_methods ms gs table ≡ some table'
    → find_auth_funcs n table ≡ some fs
    → find_auth_funcs n table' ≡ some fs
unfolding register_methods
kept-register_methods n fs [] gs table table' e h =
    let same = eq_of_some e in subst (λ t. find_auth_funcs n t ≡ some fs) same h
kept-register_methods n fs (m ∷ ms) gs table table' e h =
    elim (Option-cases (find_auth_funcs m table)) [
      | inl new ↦
          kept-register_methods n fs ms gs ((m, gs) ∷ table) table'
            (rw (new, register_methods) at e) (found-kept n m fs gs table new h)
      | inr (earlier, old) ↦
          absurd (let never : none ≡ some table' = rw (old, register_methods) at e in cc)
    ]

own_head :
    (n m : List ℕ) (gs : List MethodAuthFunc) (table : AuthFuncs)
    → n ≡ m
    → find_auth_funcs n ((m, gs) ∷ table) ≡ some gs
unfolding find_auth_funcs
own_head n m gs table at = rw (at, bytes_eq_refl m) refl

own-register_methods :
    (n : List ℕ) (ms : List (List ℕ)) (gs : List MethodAuthFunc) (table table' : AuthFuncs)
    → register_methods ms gs table ≡ some table'
    → Memᴰ n ms
    → find_auth_funcs n table' ≡ some gs
unfolding register_methods find_auth_funcs
own-register_methods n [] gs table table' e h = elim h [ ]
own-register_methods n (m ∷ ms) gs table table' e (head at) =
    elim (Option-cases (find_auth_funcs m table)) [
      | inl new ↦
          kept-register_methods n gs ms gs ((m, gs) ∷ table) table'
            (rw (new, register_methods) at e) (own_head n m gs table at)
      | inr (earlier, old) ↦
          absurd (let never : none ≡ some table' = rw (old, register_methods) at e in cc)
    ]
own-register_methods n (m ∷ ms) gs table table' e (tail h) =
    elim (Option-cases (find_auth_funcs m table)) [
      | inl new ↦
          own-register_methods n ms gs ((m, gs) ∷ table) table' (rw (new, register_methods) at e) h
      | inr (earlier, old) ↦
          absurd (let never : none ≡ some table' = rw (old, register_methods) at e in cc)
    ]

kept-register_all :
    (n : List ℕ) (fs : List MethodAuthFunc) (maps : List AuthMap) (table table' : AuthFuncs)
    → register_all maps table ≡ some table'
    → find_auth_funcs n table ≡ some fs
    → find_auth_funcs n table' ≡ some fs
unfolding register_all
kept-register_all n fs [] table table' e h =
    let same = eq_of_some e in subst (λ t. find_auth_funcs n t ≡ some fs) same h
kept-register_all n fs (a ∷ maps) table table' e h =
    elim (Option-cases (register_methods a.methods a.auth_funcs table)) [
      | inl failed ↦ absurd (let never : none ≡ some table' = rw (failed, register_all) at e in cc)
      | inr (middle, ok) ↦
          kept-register_all n fs maps middle table' (rw (ok, register_all) at e)
            (kept-register_methods n fs a.methods a.auth_funcs table middle ok h)
    ]

-- Whenever a table of guards is registered without a panic, every method of every entry has the
-- chain of its entry.
pub found-register_all :
    (maps : List AuthMap) (table table' : AuthFuncs)
    → register_all maps table ≡ some table'
    → (a : AuthMap) → Memᴰ a maps
    → (name : List ℕ) → Memᴰ name a.methods
    → find_auth_funcs name table' ≡ some a.auth_funcs
unfolding register_all
found-register_all [] table table' e a at name h = elim at [ ]
found-register_all (b ∷ maps) table table' e a at name h =
    elim (Option-cases (register_methods b.methods b.auth_funcs table)) [
      | inl failed ↦ absurd (let never : none ≡ some table' = rw (failed, register_all) at e in cc)
      | inr (middle, ok) ↦ elim at [
        | head same ↦
            kept-register_all name a.auth_funcs maps middle table' (rw (ok, register_all) at e) (
              own-register_methods name b.methods a.auth_funcs table middle
                (ap (λ x. register_methods b.methods x.auth_funcs table) same ∙ ok)
                (subst (λ x. Memᴰ name x.methods) same h))
        | tail at' ↦ found-register_all maps middle table' (rw (ok, register_all) at e) a at' name h
      ]
    ]

module _ (n : List ℕ) (fs : List MethodAuthFunc) where
  at_head :
      (m : List ℕ) (gs : List MethodAuthFunc) (table : AuthFuncs)
      → find_auth_funcs n ((m, gs) ∷ table) ≡ some fs
      → (Memᴰ n (m ∷ []) × (gs ≡ fs)) ⊎ (find_auth_funcs n table ≡ some fs)
  unfolding find_auth_funcs
  at_head m gs table h = elim (Bool-cases (bytes_eq m n)) [
    | inl at ↦ inl (head (sym (eq_of_bytes_eq m n at)), eq_of_some (rw at at h))
    | inr off ↦ inr (rw off at h)
  ]

  in_methods :
      (ms : List (List ℕ)) (gs : List MethodAuthFunc) (table table' : AuthFuncs)
      → register_methods ms gs table ≡ some table'
      → find_auth_funcs n table' ≡ some fs
      → (Memᴰ n ms × (gs ≡ fs)) ⊎ (find_auth_funcs n table ≡ some fs)
  unfolding register_methods
  in_methods [] gs table table' e h =
      let same = eq_of_some e in inr (subst (λ t. find_auth_funcs n t ≡ some fs) (sym same) h)
  in_methods (m ∷ ms) gs table table' e h = elim (Option-cases (find_auth_funcs m table)) [
    | inl new ↦
        elim (in_methods ms gs ((m, gs) ∷ table) table' (rw (new, register_methods) at e) h) [
          | inl (later, same) ↦ inl (tail later, same)
          | inr here ↦ elim (at_head m gs table here) [
            | inl (own, same) ↦ inl (append_left ms own, same)
            | inr before ↦ inr before
          ]
        ]
    | inr (earlier, old) ↦
        absurd (let never : none ≡ some table' = rw (old, register_methods) at e in cc)
  ]

  in_maps :
      (maps : List AuthMap) (table table' : AuthFuncs)
      → register_all maps table ≡ some table'
      → find_auth_funcs n table' ≡ some fs
      → ((a : AuthMap) × Memᴰ a maps × Memᴰ n a.methods × (a.auth_funcs ≡ fs))
        ⊎ (find_auth_funcs n table ≡ some fs)
  unfolding register_all
  in_maps [] table table' e h =
      let same = eq_of_some e in inr (subst (λ t. find_auth_funcs n t ≡ some fs) (sym same) h)
  in_maps (b ∷ maps) table table' e h =
      elim (Option-cases (register_methods b.methods b.auth_funcs table)) [
        | inl failed ↦
            absurd (let never : none ≡ some table' = rw (failed, register_all) at e in cc)
        | inr (middle, ok) ↦ elim (in_maps maps middle table' (rw (ok, register_all) at e) h) [
          | inl (a, later, own, same) ↦ inl (a, tail later, own, same)
          | inr early ↦ elim (in_methods b.methods b.auth_funcs table middle ok early) [
            | inl (own, same) ↦ inl (b, head refl, own, same)
            | inr before ↦ inr before
          ]
        ]
      ]

-- A chain that is found belongs to an entry that lists the method.
pub found_in_maps :
    (name : List ℕ) (fs : List MethodAuthFunc) (maps : List AuthMap) (table : AuthFuncs)
    → register_all maps [] ≡ some table
    → find_auth_funcs name table ≡ some fs
    → (a : AuthMap) × Memᴰ a maps × Memᴰ name a.methods × (a.auth_funcs ≡ fs)
unfolding find_auth_funcs
found_in_maps name fs maps table e h = elim (in_maps name fs maps [] table e h) [
  | inl found ↦ found
  | inr never ↦ cc
]
