-- ===== src/Listing/Filters.antt =====
-- The filters of the paged listing (ui/backend/internal/ldapclient/page.go). `escape` is
-- ldap.EscapeFilter, which writes every byte with a meaning in a filter as a \xx.
use ldapium.Prelude.{
  ℕ, zero, suc, ◌≡◌, refl, ◌∙◌, Bool, true, false, Bool-cases, inl, inr, ◌&&◌, not, Option, none,
  some, List, [], ◌∷◌, ◌++◌, if◌then◌else◌, all, arith,
}
use ldapium.Prelude.Bytes.{Bytes, codes}
use ldapium.Prelude.Eq.{bytes_eq, nat_eq, ◌==◌}

-- How deep the parentheses are open after a text, `none` if one closes that was not open.
unfoldable pub depth_after : Bytes → ℕ → Option ℕ
depth_after [] d = some d
depth_after (c ∷ s) d = elim (c == b'(') [
  | true ↦ depth_after s (suc d)
  | false ↦ elim (c == b')') [
    | true ↦ elim d [ zero ↦ none | suc e ↦ depth_after s e ]
    | false ↦ depth_after s d
  ]
]

abbrev pub is_no_paren : ℕ → Bool
is_no_paren c = not (c == b'(') && not (c == b')')

module _ (escape : Bytes → Bytes) where
  unfoldable pub user_page_filter : Bytes → Bytes
  user_page_filter q =
      let e = escape q in
      if q == []
      then codes "(objectClass=inetOrgPerson)"
      else codes "(&(objectClass=inetOrgPerson)(|(uid=*"
        ++ (e
            ++ (codes "*)(cn=*"
                ++ (e
                    ++ (codes "*)(mail=*"
                        ++ (e ++ (codes "*)(displayName=*" ++ (e ++ codes "*)))")))))))

  unfoldable pub group_page_filter : Bytes → Bytes
  group_page_filter q =
      let e = escape q in
      if q == []
      then codes "(objectClass=groupOfNames)"
      else codes "(&(objectClass=groupOfNames)(|(cn=*"
        ++ (e ++ (codes "*)(description=*" ++ (e ++ codes "*)))")))

  -- The loop of `uuidFilter`, and its last parenthesis.
  unfoldable pub uuid_terms : List Bytes → Bytes
  uuid_terms [] = codes ")"
  uuid_terms (u ∷ us) = codes "(entryUUID=" ++ (escape u ++ (codes ")" ++ uuid_terms us))

  unfoldable pub uuid_filter : List Bytes → Bytes
  unfolding uuid_terms
  uuid_filter uuids = codes "(|" ++ uuid_terms uuids

depth_after-append :
    (t s : Bytes) (d : ℕ) → all is_no_paren t ≡ true → depth_after (t ++ s) d ≡ depth_after s d
unfolding depth_after all
depth_after-append [] s d h = refl
depth_after-append (c ∷ t) s d h = ground (arith, h, depth_after-append t s d)

module _ (escape : Bytes → Bytes) (escapes : (q : Bytes) → all is_no_paren (escape q) ≡ true) where
  user_filter_closed :
      (q : Bytes) → (q == []) ≡ false → depth_after (user_page_filter escape q) 0 ≡ some 0
  unfolding user_page_filter depth_after
  user_filter_closed q h =
      let e = escape q in
      let t4 = codes "*)))" in
      let t3 = codes "*)(displayName=*" ++ (e ++ t4) in
      let t2 = codes "*)(mail=*" ++ (e ++ t3) in
      let t1 = codes "*)(cn=*" ++ (e ++ t2) in
      rw h (
        depth_after-append e t1 3 (escapes q)
        ∙ depth_after-append e t2 3 (escapes q)
        ∙ depth_after-append e t3 3 (escapes q)
        ∙ depth_after-append e t4 3 (escapes q))

  group_filter_closed :
      (q : Bytes) → (q == []) ≡ false → depth_after (group_page_filter escape q) 0 ≡ some 0
  unfolding group_page_filter depth_after
  group_filter_closed q h =
      let e = escape q in
      let t2 = codes "*)))" in
      let t1 = codes "*)(description=*" ++ (e ++ t2) in
      rw h (depth_after-append e t1 3 (escapes q) ∙ depth_after-append e t2 3 (escapes q))

  terms_closed : (us : List Bytes) → depth_after (uuid_terms escape us) 1 ≡ some 0
  unfolding uuid_terms depth_after
  terms_closed [] = refl
  terms_closed (u ∷ us) =
      depth_after-append (escape u) (codes ")" ++ uuid_terms escape us) 2 (escapes u)
      ∙ terms_closed us

  -- Hypothesis `escapes`: an escaped text has no parenthesis. Then in each of the three filters,
  -- whatever the query and the identifiers hold, every parenthesis that closes was open, and in the
  -- end none is.
  pub filters_are_closed :
      (q : Bytes) (uuids : List Bytes)
      → (depth_after (user_page_filter escape q) 0 ≡ some 0)
        × (depth_after (group_page_filter escape q) 0 ≡ some 0)
        × (depth_after (uuid_filter escape uuids) 0 ≡ some 0)
  unfolding user_page_filter group_page_filter uuid_filter depth_after
  filters_are_closed q uuids = elim (Bool-cases (q == [])) [
    | inl e ↦ rw e (refl, refl, terms_closed uuids)
    | inr e ↦ (user_filter_closed q e, group_filter_closed q e, terms_closed uuids)
  ]
