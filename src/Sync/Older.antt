-- ===== src/Sync/Older.antt =====
-- What becomes of candles that are older than the last one.
use trading_chart_viewer.Common.{
  ℕ, ◌≡◌, refl, ap, ◌∙◌, Bool, true, false, ◌&&◌, ◌||◌, length, ◌==◌, not, Option, none, some, List,
  [], ◌∷◌, All, back, arith, if_all, if_split,
}
use trading_chart_viewer.Common.Int.{ℤ, pos, ◌+ℤ◌, ◌<ℤ◌, ◌==ℤ◌, ltb_ℤ, leb_ℤ, int_laws}
use trading_chart_viewer.Common.Double.{DoubleOps}
use trading_chart_viewer.Core.{TimeUtils}
use trading_chart_viewer.Domain.{Candle, AppendResult, TimestampMs}
use trading_chart_viewer.Storage.Record.{PriceData, is_valid_record}
use trading_chart_viewer.Storage.Repository.State.{Repository, to_price_data, normalize_candle}
use trading_chart_viewer.Storage.Repository.Append.{append_or_replace_locked, append_after}
use trading_chart_viewer.Storage.Repository.Batch.{sort_by_open, sort_by_open-All}
use trading_chart_viewer.Sync.{config_interval_ms}
use trading_chart_viewer.Sync.State.{
  Surroundings, Orchestrator, append_logged, append_until_gap, publish_snapshot, publish_series,
  fetch_range_with, is_gap,
}
use trading_chart_viewer.Sync.Backfill.{repair_if}
use trading_chart_viewer.Sync.Live.{take_older, page_older, older_range, request_backfill_older}

-- The result of a candle that changes nothing.
record IsRefused {D : Type 0} (r : Repository D) (a : AppendResult × Repository D) : Type 0 where
  pub no_gap : is_gap a.0.state ≡ false
  pub same : a.1 ≡ r

before : (a b i : ℤ) → pos 0 <ℤ i → a <ℤ b → a <ℤ b +ℤ i
before a b i h g = omega (int_laws, h, g)

module _ {D : Type 0} (u : TimeUtils) (ops : DoubleOps D) (garbage : PriceData D) where
  append_after-IsRefused :
      (r : Repository D) (n last : Candle D)
      → pos 0 <ℤ r.layout.interval_ms
      → n.open_time <ℤ last.open_time
      → IsRefused r (append_after u ops garbage r n (some last))
  unfolding append_after
  append_after-IsRefused r n last h older =
      let expected = last.open_time +ℤ r.layout.interval_ms in
      let P = IsRefused r in
      if_split P (n.open_time ==ℤ last.open_time) _ _ (λ same. absurd (ground (arith, same, older)))
        (λ other.
          if_split P (ltb_ℤ n.open_time expected) _ _
            (λ early. record { no_gap = refl; same = refl })
            (λ late. absurd (
              ground
                (arith, late, before n.open_time last.open_time r.layout.interval_ms h older))))

  append_or_replace_locked-IsRefused :
      (r : Repository D) (c last : Candle D)
      → pos 0 <ℤ r.layout.interval_ms
      → back r.candles ≡ some last
      → (normalize_candle r.layout c).open_time <ℤ last.open_time
      → IsRefused r (append_or_replace_locked u ops garbage r c)
  unfolding append_or_replace_locked
  append_or_replace_locked-IsRefused r c last h e older =
      let n = normalize_candle r.layout c in
      if_all (IsRefused r) (not (is_valid_record (to_price_data ops r.layout n))) _ _
        (record { no_gap = refl; same = refl }) (rw e (append_after-IsRefused r n last h older))

  -- The candle opens, aligned, before the last one of the repository.
  abbrev pub IsOlderThan : Repository D → Candle D → Candle D → Type 0
  IsOlderThan r last c = (normalize_candle r.layout c).open_time <ℤ last.open_time

  record IsUnchanged {W : Type 0} (r : Repository D) (a : Option AppendResult × Orchestrator D W)
      : Type 0 where
    pub none_found : a.0 ≡ none
    pub kept : a.1.repo ≡ r

  append_until_gap-IsUnchanged :
      {W : Type 0} (o : Orchestrator D W) (r : Repository D) (last : Candle D)
      (cs : List (Candle D))
      → pos 0 <ℤ r.layout.interval_ms
      → back r.candles ≡ some last
      → All (IsOlderThan r last) cs
      → o.repo ≡ r
      → IsUnchanged r (append_until_gap u ops garbage o cs)
  unfolding append_until_gap append_logged
  append_until_gap-IsUnchanged o r last [] h e older same = record {
    none_found = refl;
    kept = same;
  }
  append_until_gap-IsUnchanged o r last (c ∷ cs) h e older same =
      let a = append_logged u ops garbage o c in
      let refused : IsRefused r (append_or_replace_locked u ops garbage o.repo c) =
        rw same (append_or_replace_locked-IsRefused r c last h e older.0) in
      if_split (IsUnchanged r) (is_gap a.0.state) _ _
        (λ gap. absurd (ground (arith, gap, refused.no_gap)))
        (λ on. append_until_gap-IsUnchanged a.1 r last cs h e older.1 refused.same)

  publish_snapshot-repo :
      {W : Type 0} (o : Orchestrator D W) (closed : Bool)
      → (publish_snapshot o closed).repo ≡ o.repo
  unfolding publish_snapshot publish_series
  publish_snapshot-repo o closed =
      if_all (λ (x : Orchestrator D _). x.repo ≡ o.repo) (o.wiring.has_repo && o.wiring.has_cache) _
        _ refl refl

  module _ {W : Type 0} (s : Surroundings D W) where
    repair_if-none :
        (gap : Option AppendResult) (batch : List (Candle D)) (o : Orchestrator D W)
        → gap ≡ none
        → repair_if u ops garbage s gap batch o ≡ o
    unfolding repair_if
    repair_if-none none batch o e = refl
    repair_if-none (some gap) batch o e = cc

    take_older-repo :
        (cs : List (Candle D)) (o : Orchestrator D W) (last : Candle D)
        → pos 0 <ℤ o.repo.layout.interval_ms
        → back o.repo.candles ≡ some last
        → All (IsOlderThan o.repo last) cs
        → (take_older u ops garbage s cs o).repo ≡ o.repo
    unfolding take_older
    take_older-repo cs o last h e older =
        let ordered = sort_by_open cs in
        let v =
          append_until_gap-IsUnchanged o o.repo last ordered h e
            (sort_by_open-All (IsOlderThan o.repo last) cs older) refl in
        let a = append_until_gap u ops garbage o ordered in
        let settled = repair_if u ops garbage s a.0 ordered a.1 in
        let untouched : settled ≡ a.1 = repair_if-none a.0 ordered a.1 v.none_found in
        publish_snapshot-repo settled true ∙ ap (λ x. x.repo) untouched ∙ v.kept

    -- What the market answers to a request for older candles.
    abbrev pub older_of : Orchestrator D W → TimestampMs → ℕ → List (Candle D)
    older_of o start_open candles =
        (s.fetch o.world o.cfg.symbol o.cfg.candle_interval
          (older_range (config_interval_ms u o.cfg) start_open candles) candles).0

    -- For a repository with a positive interval and a last candle: if every candle that the market
    -- answers with opens, aligned, before the last one, then a request for older candles leaves the
    -- repository as it is, its candles and its file included, whether the request is accepted or not.
    pub request_backfill_older-repo :
        (start_open : TimestampMs) (candles : ℕ) (o : Orchestrator D W) (last : Candle D)
        → pos 0 <ℤ o.repo.layout.interval_ms
        → back o.repo.candles ≡ some last
        → All (IsOlderThan o.repo last) (older_of o start_open candles)
        → (request_backfill_older u ops garbage s start_open candles o).repo ≡ o.repo
    unfolding request_backfill_older page_older fetch_range_with
    request_backfill_older-repo start_open candles o last h e older =
        let P = λ (x : Orchestrator D W). x.repo ≡ o.repo in
        let paging = record o { paging_backfill = true } in
        let interval = config_interval_ms u o.cfg in
        let fetched = fetch_range_with s paging (older_range interval start_open candles) candles in
        if_all P (not o.wiring.has_repo || (not o.wiring.has_market || candles == 0)) _ _ refl (
          if_all P (not o.running || o.backfilling) _ _ refl (
            if_all P o.paging_backfill _ _ refl (
              if_all P (leb_ℤ interval (pos 0)) _ _ refl (
                if_all P (length fetched.0 == 0) _ _ refl
                  (take_older-repo fetched.0 fetched.1 last h e older)))))
