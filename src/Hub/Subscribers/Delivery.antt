-- ===== src/Hub/Subscribers/Delivery.antt =====
-- Who gets a report that pkg/grader/grpc/graderhub_service.go sends, and what a close ends.
use autograder_server.Base.{
  Bool, ap, ap, sym, ◌⊎◌, ◌+◌, ◌∙◌, refl, ==_iff, lookup-insert, lookup-delete_key, subst,
  if◌then◌else◌, ◌<◌, ◌==◌, ◌||◌, Bool-cases, ◌++◌, ◌≡◌, lookup, contains, Option, List, ℕ, arith,
  ◌∷◌, [], inr, inl, some, none, false, true,
}
use autograder_server.Hub.Model.{GradeReport}
use autograder_server.Hub.Mailbox.{ReportMailbox}
use autograder_server.Hub.Mailbox
use autograder_server.Hub.Mailbox.State.{known, coalesce_reports-known}
use autograder_server.Hub.Subscribers.{
  Subscribers, subs_of, at_mailbox, at_mailboxes, publish_one, subscribe, send_grade_report,
  close_all_submission_subscribers,
}

abbrev pub Distinct : List ℕ → Type 0
Distinct [] = Unit {0}
Distinct (a ∷ r) = (contains a r ≡ false) × Distinct r

pub contains-append :
    (a b : ℕ) (xs : List ℕ) → contains a (xs ++ b ∷ []) ≡ (contains a xs || (b == a))
contains-append a b [] = ground arith
contains-append a b (x ∷ xs) = ground (arith, contains-append a b xs)

pub Distinct-append :
    (b : ℕ) (xs : List ℕ) → contains b xs ≡ false → Distinct xs → Distinct (xs ++ b ∷ [])
Distinct-append b [] h d = (refl, tt)
Distinct-append b (x ∷ xs) h d =
    (rw (contains-append x b xs) (ground arith), Distinct-append b xs (ground arith) d.1)

module _ {R : Type 0} where
  abbrev pub map_option :
      (ReportMailbox R → ReportMailbox R) → Option (ReportMailbox R) → Option (ReportMailbox R)
  map_option f none = none
  map_option f (some m) = some (f m)

  map_option-same :
      (f g : ReportMailbox R → ReportMailbox R)
      → ((m : ReportMailbox R) → f m ≡ g m)
      → (o : Option (ReportMailbox R)) → map_option f o ≡ map_option g o
  map_option-same f g h none = refl
  map_option-same f g h (some m) = ap some (h m)

  -- A slot with one more report, which is folded into one that has not been read.
  abbrev pub with_report : GradeReport R → Option (GradeReport R) → GradeReport R
  with_report r none = r
  with_report r (some unread) = known unread (r ∷ [])

  -- The mailbox after a report has got into it; a closed one takes none.
  abbrev pub delivered : GradeReport R → ReportMailbox R → ReportMailbox R
  delivered r m = if m.closed then m else record m { ch = some (with_report r m.ch) }

  publish_one_by_slot :
      (r : GradeReport R) (ch : Option (GradeReport R)) (closed : Bool)
      → let m : ReportMailbox R = record { ch = ch; closed = closed } in
        publish_one r m ≡ delivered r m
  unfolding publish_one Mailbox.publish
  publish_one_by_slot r ch true = refl
  publish_one_by_slot r none false = refl
  publish_one_by_slot r (some unread) false =
      ap (λ t. record { ch = some t; closed = false }) (coalesce_reports-known unread r)

  publish_one-delivered :
      (r : GradeReport R) (m : ReportMailbox R) → publish_one r m ≡ delivered r m
  publish_one-delivered r m = publish_one_by_slot r m.ch m.closed

  lookup-at_mailbox :
      (f : ReportMailbox R → ReportMailbox R) (a b : ℕ) (ms : List (ℕ × ReportMailbox R))
      → lookup b (at_mailbox f a ms) ≡ (if a == b then map_option f (lookup b ms) else lookup b ms)
  lookup-at_mailbox f a b [] = ground arith
  lookup-at_mailbox f a b ((c, m) ∷ r) = ground (arith, lookup-at_mailbox f a b r)

  lookup-at_mailboxes :
      (f : ReportMailbox R → ReportMailbox R) (as' : List ℕ) (b : ℕ)
      (ms : List (ℕ × ReportMailbox R))
      → Distinct as'
      → lookup b (at_mailboxes f as' ms)
        ≡ (if contains b as' then map_option f (lookup b ms) else lookup b ms)
  lookup-at_mailboxes f [] b ms d = refl
  lookup-at_mailboxes f (a ∷ as') b ms d =
      rw (lookup-at_mailboxes f as' b (at_mailbox f a ms) d.1, lookup-at_mailbox f a b ms)
        (elim (Bool-cases (a == b)) [
          | inl same ↦ rw (same, subst (λ t. contains t as' ≡ false) ((==_iff a b).0 same) d.0) refl
          | inr other ↦ rw other refl
        ])

  -- Addresses are given once, and each is in the list of one submission.
  pub record IsValid (s : Subscribers R) : Type 0 where
    pub distinct : (t : ℕ) → Distinct (subs_of (lookup t s.submission_subs))
    pub fresh :
        (t a : ℕ) → contains a (subs_of (lookup t s.submission_subs)) ≡ true → a < s.next_mailbox
    pub one_owner :
        (t u a : ℕ)
        → contains a (subs_of (lookup t s.submission_subs)) ≡ true
        → contains a (subs_of (lookup u s.submission_subs)) ≡ true
        → t ≡ u

  -- With valid subscriptions, the slot of every open mailbox of a subscriber of the submission holds
  -- the report afterwards, with each field that the report lacks from an unread report
  -- that was in the slot; closed mailboxes and those of others stay as they were.
  pub lookup-send_grade_report :
      (s : Subscribers R) (t b : ℕ) (r : GradeReport R)
      → IsValid s
      → lookup b (send_grade_report s t r).mailboxes ≡ (
          if contains b (subs_of (lookup t s.submission_subs))
          then map_option (delivered r) (lookup b s.mailboxes)
          else lookup b s.mailboxes)
  unfolding send_grade_report
  lookup-send_grade_report s t b r v =
      lookup-at_mailboxes (publish_one r) _ b s.mailboxes (v.distinct t)
      ∙ ap
          (λ o.
            if contains b (subs_of (lookup t s.submission_subs)) then o else lookup b s.mailboxes)
          (map_option-same (publish_one r) (delivered r) (publish_one-delivered r)
            (lookup b s.mailboxes))

  -- With valid subscriptions, when a submission ends every mailbox of its subscribers is closed
  -- with its slot kept, all others stay as they were, and a later report of it changes no mailbox.
  pub close_all_lem :
      (s : Subscribers R) (t b : ℕ) (r : GradeReport R)
      → IsValid s
      → let s' = close_all_submission_subscribers s t in
        (lookup b s'.mailboxes ≡ (
          if contains b (subs_of (lookup t s.submission_subs))
          then map_option Mailbox.close (lookup b s.mailboxes)
          else lookup b s.mailboxes))
        × (lookup b (send_grade_report s' t r).mailboxes ≡ lookup b s'.mailboxes)
  unfolding close_all_submission_subscribers send_grade_report
  close_all_lem s t b r v = (
    lookup-at_mailboxes Mailbox.close _ b s.mailboxes (v.distinct t),
    rw (lookup-delete_key t t s.submission_subs, (==_iff t t).1 refl) refl,
  )

  new_subs :
      (s : Subscribers R) (t u : ℕ)
      → subs_of (lookup u (subscribe s t).0.submission_subs) ≡ (
          if t == u
          then subs_of (lookup t s.submission_subs) ++ s.next_mailbox ∷ []
          else subs_of (lookup u s.submission_subs))
  unfolding subscribe
  new_subs s t u =
      rw
        (lookup-insert t u (subs_of (lookup t s.submission_subs) ++ s.next_mailbox ∷ [])
          s.submission_subs)
        (ground arith)

  is_new :
      (s : Subscribers R) (t : ℕ)
      → IsValid s
      → contains s.next_mailbox (subs_of (lookup t s.submission_subs)) ≡ false
  is_new s t v =
      elim (Bool-cases (contains s.next_mailbox (subs_of (lookup t s.submission_subs)))) [
        | inl there ↦ absurd (omega (arith, v.fresh t s.next_mailbox there))
        | inr gone ↦ gone
      ]

  subscribe-Distinct :
      (s : Subscribers R) (t u : ℕ)
      → IsValid s
      → Distinct (subs_of (lookup u (subscribe s t).0.submission_subs))
  subscribe-Distinct s t u v = rw (new_subs s t u) (elim (Bool-cases (t == u)) [
    | inl same ↦ rw same (Distinct-append s.next_mailbox _ (is_new s t v) (v.distinct t))
    | inr other ↦ rw other (v.distinct u)
  ])

  member_cases :
      (s : Subscribers R) (t u a : ℕ)
      → contains a (subs_of (lookup u (subscribe s t).0.submission_subs)) ≡ true
      → (contains a (subs_of (lookup u s.submission_subs)) ≡ true)
        ⊎ ((u ≡ t) × (a ≡ s.next_mailbox))
  member_cases s t u a h = elim (Bool-cases (t == u)) [
    | inl same ↦
        let e : t ≡ u = (==_iff t u).0 same in
        let h' : contains a (subs_of (lookup t s.submission_subs) ++ s.next_mailbox ∷ []) ≡ true =
          rw (new_subs s t u, same) at h in
        subst
          (λ w.
            (contains a (subs_of (lookup w s.submission_subs)) ≡ true)
            ⊎ ((w ≡ t) × (a ≡ s.next_mailbox)))
          e
          (ground (arith, contains-append a s.next_mailbox (subs_of (lookup t s.submission_subs))))
    | inr other ↦ inl (rw (new_subs s t u, other) at h)
  ]

  next-subscribe : (s : Subscribers R) (t : ℕ) → (subscribe s t).0.next_mailbox ≡ s.next_mailbox + 1
  unfolding subscribe
  next-subscribe s t = refl

  -- Subscribing keeps valid subscriptions valid.
  pub subscribe-IsValid : (s : Subscribers R) (t : ℕ) → IsValid s → IsValid (subscribe s t).0
  subscribe-IsValid s t v = record {
    distinct = λ u. subscribe-Distinct s t u v;
    fresh = λ u a h. rw next-subscribe (elim (member_cases s t u a h) [
      | inl old ↦ omega (arith, v.fresh u a old)
      | inr (_, new) ↦ omega arith
    ]);
    one_owner = λ u w a h k. elim (member_cases s t u a h) [
      | inl old ↦ elim (member_cases s t w a k) [
        | inl old' ↦ v.one_owner u w a old old'
        | inr (_, new) ↦ absurd (omega (arith, v.fresh u a old))
      ]
      | inr (e, new) ↦ elim (member_cases s t w a k) [
        | inl old' ↦ absurd (omega (arith, v.fresh w a old'))
        | inr (e', _) ↦ e ∙ sym e'
      ]
    ];
  }
