-- ===== src/Sync/Filling.antt =====
-- Candles that follow on from the last one are all appended.
use mathlib.Core.List.{append_assoc, append-nil}
use trading_chart_viewer.Common.{
  ◌+◌, ◌≡◌, ◌≢◌, refl, ap, sym, ◌∙◌, Bool, true, not, Option, none, some, List, [], ◌∷◌, ◌++◌, map,
  back, back-append, arith, if_all, if_split,
}
use trading_chart_viewer.Common.Int.{ℤ, pos, pos_part, neg_part, ◌+ℤ◌, ◌<ℤ◌, ◌==ℤ◌, ltb_ℤ, int_laws}
use trading_chart_viewer.Common.Double.{DoubleOps}
use trading_chart_viewer.Core.{TimeUtils}
use trading_chart_viewer.Domain.{Candle, AppendResult, RangeState}
use trading_chart_viewer.Storage.Record.{PriceData, is_valid_record}
use trading_chart_viewer.Storage.Repository.State.{
  Layout, Repository, to_price_data, normalize_candle, refresh_if, refresh_metadata,
}
use trading_chart_viewer.Storage.Repository.Append.{
  append_or_replace_locked, append_after, append_next, seal_last, persist_closed,
}
use trading_chart_viewer.Sync.State.{Orchestrator, append_logged, append_until_gap, is_gap}

same_parts : (a b : ℤ) → (a ==ℤ b) ≡ true → pos_part a + neg_part b ≡ pos_part b + neg_part a
same_parts a b h = ground arith

later_ne : (b i : ℤ) → pos 0 <ℤ i → (b +ℤ i ==ℤ b) ≢ true
later_ne b i h s = omega (int_laws, h, same_parts (b +ℤ i) b s)

not_same : (a b i : ℤ) → a ≡ b +ℤ i → pos 0 <ℤ i → (a ==ℤ b) ≢ true
not_same a b i e h s = later_ne b i h (rw e at s)

-- What an appended candle leaves: the result is no gap, and it stands behind the others.
record IsAppended {D : Type 0} (r : Repository D) (n : Candle D) (a : AppendResult × Repository D)
    : Type 0 where
  pub fine : a.0.state ≡ RangeState.fine
  pub candles : a.1.candles ≡ r.candles ++ n ∷ []
  pub layout : a.1.layout ≡ r.layout

module _ {D : Type 0} (u : TimeUtils) (ops : DoubleOps D) (garbage : PriceData D) where
  -- The candles are closed and valid, and each opens one interval after the one before.
  abbrev pub Follows : Layout → ℤ → List (Candle D) → Type 0
  Follows l t [] = Unit
  Follows l t (c ∷ cs) =
      let n = normalize_candle l c in
      (n.is_closed ≡ true)
      × (is_valid_record (to_price_data ops l n) ≡ true)
      × (n.open_time ≡ t +ℤ l.interval_ms)
      × Follows l n.open_time cs

  -- Another repository with the same candles and the same layout.
  abbrev Same : Repository D → Repository D → Type 0
  Same r r' = (r'.candles ≡ r.candles) × (r'.layout ≡ r.layout)

  persist_closed-Same :
      (r : Repository D) (c : Candle D) → Same r (persist_closed u ops garbage r c).1
  unfolding persist_closed
  persist_closed-Same r c =
      let P = λ (x : Bool × Repository D). Same r x.1 in
      if_all P (not c.is_closed) _ _ (refl, refl)
        (if_all P (not (is_valid_record (to_price_data ops r.layout c))) _ _ (refl, refl)
          (refl, refl))

  refresh_if-Same : (touched : Bool) (r : Repository D) → Same r (refresh_if touched r)
  unfolding refresh_if refresh_metadata
  refresh_if-Same touched r = if_all (Same r) touched _ _ (refl, refl) (refl, refl)

  seal_last-Same :
      (r : Repository D) (last : Candle D)
      → last.is_closed ≡ true
      → Same r (seal_last u ops garbage r last).1
  unfolding seal_last
  seal_last-Same r last closed =
      if_split (λ (x : Bool × Repository D). Same r x.1) last.is_closed _ _ (λ e. (refl, refl))
        (λ e. cc)

  append_next-IsAppended :
      (r : Repository D) (last n : Candle D)
      → last.is_closed ≡ true
      → IsAppended r n (append_next u ops garbage r last n)
  unfolding append_next
  append_next-IsAppended r last n closed =
      let sealed = (seal_last u ops garbage r last).1 in
      let s = seal_last-Same r last closed in
      let p = persist_closed-Same (record sealed { candles = sealed.candles ++ n ∷ [] }) n in
      record {
        fine = refl;
        candles = (refresh_if-Same _ _).0 ∙ p.0 ∙ ap (λ cs. cs ++ n ∷ []) s.0;
        layout = (refresh_if-Same _ _).1 ∙ p.1 ∙ s.1;
      }

  append_after-IsAppended :
      (r : Repository D) (last n : Candle D)
      → last.is_closed ≡ true
      → n.open_time ≡ last.open_time +ℤ r.layout.interval_ms
      → pos 0 <ℤ r.layout.interval_ms
      → IsAppended r n (append_after u ops garbage r n (some last))
  unfolding append_after
  append_after-IsAppended r last n closed e h =
      let expected = last.open_time +ℤ r.layout.interval_ms in
      let P = IsAppended r n in
      if_split P (n.open_time ==ℤ last.open_time) _ _ (λ same. absurd (not_same _ _ _ e h same))
        (λ other.
          if_split P (ltb_ℤ n.open_time expected) _ _ (λ early. absurd (ground (arith, early, e)))
            (λ on_time.
              if_split P (ltb_ℤ expected n.open_time) _ _ (λ late. absurd (ground (arith, late, e)))
                (λ exact. append_next-IsAppended r last n closed)))

  -- The last candle is closed and opens at `t`.
  pub record IsReady (t : ℤ) (r : Repository D) : Type 0 where
    pub last : Candle D
    pub stands : back r.candles ≡ some last
    pub shut : last.is_closed ≡ true
    pub opens : last.open_time ≡ t

  append_or_replace_locked-IsAppended :
      (t : ℤ) (r : Repository D) (c : Candle D) (cs : List (Candle D))
      → pos 0 <ℤ r.layout.interval_ms
      → IsReady t r
      → Follows r.layout t (c ∷ cs)
      → IsAppended r (normalize_candle r.layout c) (append_or_replace_locked u ops garbage r c)
  unfolding append_or_replace_locked
  append_or_replace_locked-IsAppended t r c cs h ready follows =
      let n = normalize_candle r.layout c in
      let after = append_after-IsAppended r ready.last n ready.shut (rw ready.opens follows.2) h in
      if_split (IsAppended r n) (not (is_valid_record (to_price_data ops r.layout n))) _ _
        (λ bad. absurd (ground (arith, bad, follows.1))) (λ ok. rw ready.stands after)

  no_gap_state : (x : RangeState) → x ≡ RangeState.fine → is_gap x ≢ true
  no_gap_state x e g = cc

  -- The time of the last candle after these.
  abbrev pub end_of : Layout → ℤ → List (Candle D) → ℤ
  end_of l t [] = t
  end_of l t (c ∷ cs) = end_of l (normalize_candle l c).open_time cs

  -- All the candles were appended, and more may follow.
  pub record IsFilled {W : Type 0} (t : ℤ) (cs : List (Candle D)) (o : Orchestrator D W)
      (a : Option AppendResult × Orchestrator D W) : Type 0 where
    pub no_gap : a.0 ≡ none
    pub candles : a.1.repo.candles ≡ o.repo.candles ++ map (normalize_candle o.repo.layout) cs
    pub layout : a.1.repo.layout ≡ o.repo.layout
    pub ready : IsReady (end_of o.repo.layout t cs) a.1.repo

  appended-IsReady :
      (r : Repository D) (n : Candle D) (a : AppendResult × Repository D)
      → n.is_closed ≡ true
      → IsAppended r n a
      → IsReady n.open_time a.1
  appended-IsReady r n a closed v = record {
    last = n;
    stands = rw v.candles (back-append r.candles n);
    shut = closed;
    opens = refl;
  }

  pub append_until_gap-IsFilled :
      {W : Type 0} (t : ℤ) (o : Orchestrator D W) (cs : List (Candle D))
      → pos 0 <ℤ o.repo.layout.interval_ms
      → IsReady t o.repo
      → Follows o.repo.layout t cs
      → IsFilled t cs o (append_until_gap u ops garbage o cs)
  unfolding append_until_gap append_logged
  append_until_gap-IsFilled t o [] h ready follows = record {
    no_gap = refl;
    candles = sym (append-nil o.repo.candles);
    layout = refl;
    ready = ready;
  }
  append_until_gap-IsFilled t o (c ∷ cs) h ready follows =
      let n = normalize_candle o.repo.layout c in
      let a = append_logged u ops garbage o c in
      let v = append_or_replace_locked-IsAppended t o.repo c cs h ready follows in
      let rest =
        append_until_gap-IsFilled n.open_time a.1 cs (rw v.layout h)
          (appended-IsReady o.repo n (a.0, a.1.repo) follows.0 v) (rw v.layout follows.3) in
      if_split (IsFilled t (c ∷ cs) o) (is_gap a.0.state) _ _
        (λ gap. absurd (no_gap_state _ v.fine gap))
        (λ more. record {
          no_gap = rest.no_gap;
          candles =
              rest.candles
              ∙ ap (λ l. a.1.repo.candles ++ map (normalize_candle l) cs) v.layout
              ∙ ap (λ xs. xs ++ map (normalize_candle o.repo.layout) cs) v.candles
              ∙ append_assoc o.repo.candles (n ∷ []) (map (normalize_candle o.repo.layout) cs);
          layout = rest.layout ∙ v.layout;
          ready = rw v.layout at rest.ready;
        })
