-- ===== src/Ctl/Client/Names.antt =====
-- About List of ctl/internal/client/client.go: the names that it reports.
use dezhan.Base.{
  ◌≡◌, ◌≢◌, ◌⊎◌, ◌↔◌, refl, ap, sym, subst, ◌∙◌, [], ◌∷◌, List, Bool, true, false, if◌then◌else◌,
  ◌==◌, ok, pure, fail, >>=-ok, arith, inl, inr, In,
}
use dezhan.Text.{Text, codes, trim_space, split}
use dezhan.Csi.Conn.{is_empty}
use dezhan.Ctl.Http.{Http}
use dezhan.Ctl.Order.{sort, IsSorted, sort-IsSorted, In-sort}
use dezhan.Ctl.Client.{Client, Reply, text, list, nonempty_lines, request, http_error}
use dezhan.Ctl.Client.Requests.{Answers, text-ok}

-- `a` is a line of the list without the white space around it.
abbrev pub IsLineOf : Text → List Text → Type 0
IsLineOf a lines = (line : Text) × In line lines × (a ≡ trim_space line)

push-line : (a line : Text) (lines : List Text) → IsLineOf a lines → IsLineOf a (line ∷ lines)
push-line a line lines (l, m, e) = (l, inr m, e)

nonempty : (s a : Text) → is_empty s ≡ false → a ≡ s → a ≢ []
nonempty [] a h e = cc
nonempty (c ∷ s) a h e = rw e cc

In-nonempty_lines-to :
    (a : Text) (lines : List Text) → In a (nonempty_lines lines) → (a ≢ []) × IsLineOf a lines
unfolding nonempty_lines
In-nonempty_lines-to a [] h = absurd h
In-nonempty_lines-to a (line ∷ lines) h =
    go (is_empty (trim_space line)) refl h (λ m. In-nonempty_lines-to a lines m)
  where
    go :
        (b : Bool)
        → is_empty (trim_space line) ≡ b
        → In a (if b then nonempty_lines lines else trim_space line ∷ nonempty_lines lines)
        → (In a (nonempty_lines lines) → (a ≢ []) × IsLineOf a lines)
        → (a ≢ []) × IsLineOf a (line ∷ lines)
    go true k m ih = let (n, l) = ih m in (n, push-line a line lines l)
    go false k (inl e) ih = (nonempty (trim_space line) a k e, (line, inl refl, e))
    go false k (inr m) ih = let (n, l) = ih m in (n, push-line a line lines l)

keep :
    (b : Bool) (a s : Text) (rest : List Text)
    → is_empty s ≡ b
    → a ≢ []
    → (a ≡ s) ⊎ In a rest
    → In a (if b then rest else s ∷ rest)
keep true a [] rest k n (inl e) = absurd (n e)
keep true a (c ∷ s) rest k n (inl e) = cc
keep true a s rest k n (inr m) = m
keep false a s rest k n m = m

In-nonempty_lines-from :
    (a : Text) (lines : List Text) → a ≢ [] → IsLineOf a lines → In a (nonempty_lines lines)
unfolding nonempty_lines
In-nonempty_lines-from a [] n (l, m, e) = absurd m
In-nonempty_lines-from a (line ∷ lines) n (l, inl m, e) =
    keep _ a (trim_space line) _ refl n (inl (e ∙ ap trim_space m))
In-nonempty_lines-from a (line ∷ lines) n (l, inr m, e) =
    keep _ a (trim_space line) _ refl n (inr (In-nonempty_lines-from a lines n (l, m, e)))

In-list :
    (a : Text) (names lines : List Text)
    → names ≡ sort (nonempty_lines lines)
    → In a names ↔ ((a ≢ []) × IsLineOf a lines)
In-list a names lines e = (
  λ m. In-nonempty_lines-to a lines ((In-sort a (nonempty_lines lines)).0 (subst (In a) e m)),
  λ p.
      subst (In a) (sym e)
        ((In-sort a (nonempty_lines lines)).1 (In-nonempty_lines-from a lines p.0 p.1)),
)

module _ (H : Http) (c : Client) where
  -- `list` reports names only if the server has answered 200 to a GET of /v. They come sorted, and a
  -- text is one of them exactly when it is not empty and is a line of the body without the white
  -- space around it: no name is lost, and none is made up.
  pub list-ok :
      (w : H.World) (names : List Text)
      → (list H c w).0 ≡ ok names
      → (body : Text) × Answers H c
          (request H c (codes "GET") (codes "/v") [] [])
          w
          (list H c w).1
          200
          body
        × IsSorted names
        × ((a : Text) → In a names ↔ ((a ≢ []) × IsLineOf a (split body b'\n')))
  unfolding list
  list-ok w names h =
      let (r, got, rest, same) = >>=-ok (text H c (codes "GET") (codes "/v") [] []) _ w h in
      let (good, e, stays) = checks r rest in
      let sent = text-ok H c (codes "GET") (codes "/v") [] [] w r got in
      (
        r.body,
        rw (same, stays) (rw good at sent),
        rw e (sort-IsSorted (nonempty_lines (split r.body b'\n'))),
        λ a. In-list a names (split r.body b'\n') e,
      )
    where
      checks :
          (r : Reply) {v : H.World}
          → ((if r.code == 200
                then pure (sort (nonempty_lines (split r.body b'\n')))
                else fail (http_error (codes "list") r.code))
              v).0
            ≡ ok names
          → (r.code ≡ 200)
            × (names ≡ sort (nonempty_lines (split r.body b'\n')))
            × (((if r.code == 200
                    then pure (sort (nonempty_lines (split r.body b'\n')))
                    else fail (http_error (codes "list") r.code))
                  v).1
                ≡ v)
      checks r k = ground arith
