-- ===== src/Asio/Round.antt =====
-- A whole probe, endpoint by endpoint.
use async_thrift.Prelude.{
  ℕ, ◌≡◌, ◌≢◌, sym, ap, ◌∙◌, subst, [], ◌∷◌, Bool, false, Option, none, some, arith, ◌==◌,
  if◌then◌else◌, Bool-cases, ==_iff, inl, inr,
}
use async_thrift.Map.{Map, find, or_fresh, Above, IsSorted}
use async_thrift.Asio.{Status, EndPointPool, fresh, AsioPool, entry, close_all, is_deleting}
use async_thrift.Asio.Probe.{
  Scanned, scan, first_pass, scan_all, note, probe_one, probe_each, probe,
}
use async_thrift.Asio.Cycle.{
  after_dial, after_probe, entry-probe_one_ne, status_at, probe_one-status, probe_each-Above,
  scanned-status,
}

module _ (quick : Bool) (is_closed : ℕ → Bool) (dial : ℕ → ℕ → Option ℕ) where
  abbrev scanned : EndPointPool → Scanned
  scanned e = scan quick is_closed e.status e.pool

  abbrev expected : ℕ → EndPointPool → Status
  expected ep e = if (scanned e).probed then after_dial (dial ep 0) else (scanned e).entry.status

  find-first_pass :
      (ep : ℕ) (m : Map EndPointPool) (e : EndPointPool)
      → find ep m ≡ some e
      → find ep (first_pass quick is_closed m).map ≡ some (scanned e).entry
  unfolding find first_pass
  find-first_pass ep [] e h = cc
  find-first_pass ep ((k, e') ∷ m) e h = elim (Bool-cases (ep == k)) [
    | inl same ↦ rw same (ap (λ x. some (scanned x).entry) (first (rw same at h)))
    | inr other ↦ rw other (find-first_pass ep m e (rw other at h))
  ]
    where
      first : some e' ≡ some e → e' ≡ e
      first q = cc

  head-status :
      (ep : ℕ) (e : EndPointPool) (m : Map EndPointPool) (p : AsioPool)
      → Above ep m
      → entry ep p ≡ (scanned e).entry
      → status_at ep (
          probe_each dial
            (note (scanned e).probed (ep, e.status) (first_pass quick is_closed m).probe_map)
            p)
        ≡ expected ep e
  unfolding probe_each
  head-status ep e m p a h =
      let (_, agree) = scanned-status quick is_closed e.status e.pool none in
      elim (Bool-cases (scanned e).probed) [
        | inl yes_probed ↦ rw yes_probed (
            ap EndPointPool.status (probe_each-Above ep quick is_closed dial m _ a)
            ∙ subst (λ st. status_at ep (probe_one (dial ep) (ep, st) p) ≡ after_dial (dial ep 0))
                (now (agree yes_probed).0)
                (probe_one-status (dial ep) ep p
                  (ap is_deleting (now (agree yes_probed).0) ∙ (agree yes_probed).1)))
        | inr not_probed ↦ rw not_probed (
            ap EndPointPool.status (probe_each-Above ep quick is_closed dial m p a)
            ∙ ap EndPointPool.status h)
      ]
    where
      now : (scanned e).entry.status ≡ e.status → status_at ep p ≡ e.status
      now q = ap EndPointPool.status h ∙ q

  each-status :
      (ep : ℕ) (m : Map EndPointPool) (e : EndPointPool) (p : AsioPool)
      → IsSorted m
      → find ep m ≡ some e
      → entry ep p ≡ (scanned e).entry
      → status_at ep (probe_each dial (first_pass quick is_closed m).probe_map p) ≡ expected ep e
  unfolding find first_pass probe_each
  each-status ep [] e p s h q = cc
  each-status ep ((k, e') ∷ m) e p s h q = elim (Bool-cases (ep == k)) [
    | inl same ↦ at_head k e' ((==_iff ep k).0 same) (first (rw same at h)) s.0
    | inr other ↦ elim (Bool-cases (scanned e').probed) [
      | inl probed ↦ rw probed (
          each-status ep m e (probe_one (dial k) (k, e'.status) p) s.1 (rw other at h)
            (entry-probe_one_ne ep k (apart other) (dial k) e'.status p ∙ q))
      | inr skipped ↦ rw skipped (each-status ep m e p s.1 (rw other at h) q)
    ]
  ]
    where
      first : some e' ≡ some e → e ≡ e'
      first r = cc

      apart : (ep == k) ≡ false → ep ≢ k
      apart r = ground arith

      at_head :
          (j : ℕ) (x : EndPointPool)
          → ep ≡ j
          → e ≡ x
          → Above j m
          → status_at ep (
              probe_each dial
                (note (scanned x).probed (j, x.status) (first_pass quick is_closed m).probe_map)
                p)
            ≡ expected ep e
      at_head j x r r' a =
          subst
            (λ y.
              status_at ep (
                probe_each dial
                  (note (scanned y).probed (j, y.status) (first_pass quick is_closed m).probe_map)
                  p)
              ≡ expected ep e)
            r'
            (subst
              (λ i.
                Above i m
                → status_at ep (
                    probe_each dial
                      (note (scanned e).probed (i, e.status)
                        (first_pass quick is_closed m).probe_map)
                      p)
                  ≡ expected ep e)
              r (λ b. head-status ep e m p b q) a)

  -- A whole probe of a map in order gives each endpoint of it the status that `after_probe` says, from what the
  -- first connect to it returns; the other endpoints have no part in it.
  pub probe-status :
      (ep : ℕ) (e : EndPointPool) (p : AsioPool)
      → IsSorted p.map
      → find ep p.map ≡ some e
      → (entry ep (probe quick is_closed dial p)).status ≡ after_probe quick is_closed e (dial ep 0)
  unfolding probe scan_all close_all
  probe-status ep e p s h =
      each-status ep p.map e (scan_all quick is_closed p).0 s h
        (ap (or_fresh fresh) (find-first_pass ep p.map e h))
      ∙ sym (scanned-status quick is_closed e.status e.pool (dial ep 0)).0
