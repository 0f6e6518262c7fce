-- ===== src/Ctl/Dashboard/Fetch.antt =====
-- About the fetch of ctl/internal/tui/dashboard.go.
use dezhan.Base.{
  ℕ, ◌≡◌, ◌≢◌, ◌⊎◌, refl, [], List, Bool, true, false, Option, none, some, if◌then◌else◌, ◌==◌,
  Result, ok, err, >>=-ok, pure, fail, inl, inr,
}
use dezhan.Text.{Text, codes}
use dezhan.Ctl.Http.{Http}
use dezhan.Ctl.Client.{Client, text, health, version}
use dezhan.Ctl.Metrics.{Floats, Metrics, metrics, parse_metrics}
use dezhan.Ctl.Metrics.Lines.{parse_metrics-some}
use dezhan.Ctl.Dashboard.{
  Snapshot, take_snapshot, with_metrics, with_objects, empty_snapshot, value_or,
}

module _ (N : Floats) (H : Http) (c : Client) where
  -- A request for the metrics never panics, whatever the server answers.
  pub metrics-some : (w : H.World) → (metrics N H c w).0 ≢ ok none
  unfolding metrics
  metrics-some w h =
      let (r, got, rest, same) = >>=-ok (text H c (codes "GET") (codes "/metrics") [] []) _ w h in
      decided (r.code == 200) (parse_metrics N r.body).1 (parse_metrics N r.body).0 _ _
        (text H c (codes "GET") (codes "/metrics") [] [] w).1 (parse_metrics-some N r.body) rest
    where
      decided :
          (b t : Bool) (o : Option (Metrics N.F)) (e f : Text) (v : H.World)
          → o ≢ none
          → ((if b then (if t then fail e else pure o) else fail f) v).0 ≢ ok none
      decided true true o e f v n k = cc
      decided true false none e f v n k = n refl
      decided true false (some m) e f v n k = cc
      decided false t o e f v n k = cc

  -- A fetch always comes to a snapshot, whatever the server answers and whichever requests fail. It has
  -- either metrics or an error, and the health that was reported, or nothing for a failed request.
  pub take_snapshot-some :
      (now : ℕ) (w : H.World)
      → (s : Snapshot N) × ((take_snapshot N H c now w).0 ≡ some s)
        × (((s.error ≡ none) × (s.metrics ≢ none)) ⊎ ((s.error ≢ none) × (s.metrics ≡ none)))
        × (s.health ≡ value_or [] (health H c w).0)
  unfolding take_snapshot
  take_snapshot-some now w =
      go (value_or [] (health H c w).0) (value_or [] (version H c (health H c w).1).0) _ _
        (metrics-some (version H c (health H c w).1).1)
    where
      base : Text → Text → Snapshot N
      base h v = record (empty_snapshot N) { health = h; version = v; at = now }

      some-ne : {A : Type 0} (a : A) → some a ≢ none
      some-ne a e = cc

      go :
          (h v : Text) (r : Result Text (Option (Metrics N.F))) (os : List Text)
          → r ≢ ok none
          → (t : Snapshot N) × (with_objects N H c now (with_metrics N H c now (base h v) r) os
              ≡ some t)
            × (((t.error ≡ none) × (t.metrics ≢ none)) ⊎ ((t.error ≢ none) × (t.metrics ≡ none)))
            × (t.health ≡ h)
      go h v (ok none) os n = absurd (n refl)
      go h v (ok (some m)) os n =
          (record (base h v) { metrics = some m; objects = os }, refl, inl (refl, some-ne m), refl)
      go h v (err e) os n =
          (record (base h v) { error = some e; objects = os }, refl, inr (some-ne e, refl), refl)
