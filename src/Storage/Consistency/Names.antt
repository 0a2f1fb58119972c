-- ===== src/Storage/Consistency/Names.antt =====
-- internal/storage/memory.go: the index of user names. The index and the users describe each other,
-- so no two users share a name.
use discobox.Prelude.{
  Str, ◌≡◌, ◌≢◌, sym, ap, subst, ◌∙◌, inl, inr, none, some, str_eq, some-injective, beq-cases,
}
use discobox.Prelude.Dict.{
  Dict, lookup, insert, erase, lookup-insert, lookup-insert_self, lookup-insert_ne,
  lookup-insert_cases, lookup-erase_cases, lookup-erase_ne, lookup-insert_missing,
}
use discobox.Types.User.{User}

-- Each user stands in the index under its name, and each name leads to a user of that name.
pub record IsIndex (users : Dict Str User) (usernames : Dict Str Str) : Type 0 where
  pub indexed :
      (id : Str) (u : User) → lookup id users ≡ some u → lookup u.username usernames ≡ some id
  pub named :
      (n id : Str)
      → lookup n usernames ≡ some id
      → (u : User) × (lookup id users ≡ some u) × (u.username ≡ n)

module _ {users : Dict Str User} {usernames : Dict Str Str} (x : IsIndex users usernames) where
  -- Two users have two names, and two names are of two users.
  names_differ :
      (i j : Str) (a b : User)
      → lookup i users ≡ some a
      → lookup j users ≡ some b
      → i ≢ j
      → a.username ≢ b.username
  names_differ i j a b p q other same = other (
      some-injective
        (sym (x.indexed i a p) ∙ ap (λ (n : Str). lookup n usernames) same ∙ x.indexed j b q))

  ids_differ :
      (i j : Str) (a b : User)
      → lookup i users ≡ some a
      → lookup j users ≡ some b
      → a.username ≢ b.username
      → i ≢ j
  ids_differ i j a b p q other same = other (
      ap (λ (u : User). u.username)
        (some-injective (sym p ∙ ap (λ (k : Str). lookup k users) same ∙ q)))

  -- A new user under a new name.
  pub add-IsIndex :
      (u : User)
      → lookup u.id users ≡ none
      → lookup u.username usernames ≡ none
      → IsIndex (insert u.id u users) (insert u.username u.id usernames)
  add-IsIndex u new_id new_name = record {
    indexed = λ j w p. elim (lookup-insert_cases u.id j u w users p) [
      | inl (same, found) ↦
          subst (λ (z : User). lookup z.username (insert u.username u.id usernames) ≡ some j) found
            (lookup-insert_self u.username u.id usernames ∙ ap some same)
      | inr (_, old) ↦
          lookup-insert_missing u.username w.username u.id j usernames new_name (x.indexed j w old)
    ];
    named = λ n id h. elim (lookup-insert_cases u.username n u.id id usernames h) [
      | inl (same, found) ↦ (
        u,
        subst (λ (i : Str). lookup i (insert u.id u users) ≡ some u) found
            (lookup-insert_self u.id u users),
        same,
      )
      | inr (_, old) ↦
          let (w, there, name) = x.named n id old in
          (w, lookup-insert_missing u.id id u w users new_id there, name)
    ];
  }

  -- A user overwritten under the same name.
  pub overwrite-IsIndex :
      (u old : User)
      → lookup u.id users ≡ some old
      → old.username ≡ u.username
      → IsIndex (insert u.id u users) usernames
  overwrite-IsIndex u old there same = record {
    indexed = λ j w p. elim (lookup-insert_cases u.id j u w users p) [
      | inl (at, found) ↦
          subst (λ (z : User). lookup z.username usernames ≡ some j) found
            (ap (λ (n : Str). lookup n usernames) (sym same)
              ∙ x.indexed u.id old there
              ∙ ap some at)
      | inr (_, kept) ↦ x.indexed j w kept
    ];
    named = λ n id h. let (w, kept, name) = x.named n id h in overwritten n id w kept name;
  }
    where
      overwritten :
          (n id : Str) (w : User)
          → lookup id users ≡ some w
          → w.username ≡ n
          → (z : User) × (lookup id (insert u.id u users) ≡ some z) × (z.username ≡ n)
      overwritten n id w kept name = elim (beq-cases u.id id) [
        | inl (at, b) ↦ (
          u,
          rw (lookup-insert u.id id u users, b),
          cc (ap (λ (i : Str). lookup i users) at, there, kept, same, name),
        )
        | inr (other, b) ↦ (w, rw (lookup-insert u.id id u users, b) kept, name)
      ]

  -- A user overwritten under a new name, whose old name is freed.
  pub rename-IsIndex :
      (u old : User)
      → lookup u.id users ≡ some old
      → lookup u.username usernames ≡ none
      → IsIndex (insert u.id u users) (insert u.username u.id (erase old.username usernames))
  rename-IsIndex u old there new_name = record {
    indexed = λ j w p. elim (lookup-insert_cases u.id j u w users p) [
      | inl (at, found) ↦
          subst
            (λ (z : User).
              lookup z.username (insert u.username u.id (erase old.username usernames)) ≡ some j)
            found (lookup-insert_self u.username u.id (erase old.username usernames) ∙ ap some at)
      | inr (other, kept) ↦
          lookup-insert_ne u.username w.username u.id (erase old.username usernames)
            (λ same. cc (new_name, x.indexed j w kept, ap (λ (n : Str). lookup n usernames) same))
          ∙ lookup-erase_ne old.username w.username usernames
              (names_differ u.id j old w there kept other)
          ∙ x.indexed j w kept
    ];
    named = λ n id h.
        elim (lookup-insert_cases u.username n u.id id (erase old.username usernames) h) [
          | inl (same, at) ↦ (
            u,
            subst (λ (i : Str). lookup i (insert u.id u users) ≡ some u) at
                (lookup-insert_self u.id u users),
            same,
          )
          | inr (_, left) ↦
              let (free, kept) = lookup-erase_cases old.username n id usernames left in
              let (w, at, name) = x.named n id kept in
              (
                w,
                lookup-insert_ne u.id id u users
                      (ids_differ u.id id old w there at (λ same. free (same ∙ name)))
                    ∙ at,
                name,
              )
        ];
  }

  pub remove-IsIndex :
      (id : Str) (old : User)
      → lookup id users ≡ some old
      → IsIndex (erase id users) (erase old.username usernames)
  remove-IsIndex id old there = record {
    indexed = λ j w p.
        let (other, kept) = lookup-erase_cases id j w users p in
        lookup-erase_ne old.username w.username usernames (names_differ id j old w there kept other)
        ∙ x.indexed j w kept;
    named = λ n i h.
        let (free, kept) = lookup-erase_cases old.username n i usernames h in
        let (w, at, name) = x.named n i kept in
        (
          w,
          lookup-erase_ne id i users (ids_differ id i old w there at (λ same. free (same ∙ name)))
              ∙ at,
          name,
        );
  }
