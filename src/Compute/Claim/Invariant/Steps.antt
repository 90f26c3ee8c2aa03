-- ===== src/Compute/Claim/Invariant/Steps.antt =====
-- Each step of the workers and of the other semaphore.
use perfnum.Prelude.{
  ℕ, ◌*◌, ◌/◌, ◌%◌, subst, ◌≤◌, ◌<◌, ◌≡◌, ◌≢◌, refl, sym, ◌∙◌, true, false, some, length, get_elem?,
  set, length-set, arith,
}
use native.Mathlib.Decide.{ℕ_discrete}
use perfnum.Shmem.{area_bit, store_bit, set_bit}
use perfnum.Shmem.Bits.{set_bit-lt}
use perfnum.Compute.Claim.{
  Pc, scanning, Memory, Move, see_clear, see_set, at_end, lock, interrupted, lock_fails,
  still_clear, taken, claim, post, post_fails, post_skip, post_skip_fails, again, System, update,
  pick, other, IsFresh, Reach, start, later,
}
use perfnum.Compute.Claim.Invariant.{
  claims, holding, Knows, Inv, behind, set_bytes, claim_bits, Knows-mono, Knows-behind, Passed-suc,
}

module _ {size : ℕ} {m : Memory} {pc : ℕ → Pc} (inv : Inv size m pc) (w : ℕ) where
  open inv use {bytes, inside, counted, locked, single, knows}

  Move-bytes :
      {p p' : Pc} {m' : Memory}
      → Move w m p m' p'
      → (i b : ℕ) → get_elem? m'.area i ≡ some b
      → b < 256
  unfolding store_bit
  Move-bytes (claim {k = k} {byte = byte}) i b e =
      set_bytes m.area (k / 8) _ bytes (set_bit-lt byte (k % 8)) i b e
  Move-bytes mv i b e = bytes i b e

  Move-inside : {p p' : Pc} {m' : Memory} → Move w m p m' p' → size ≤ length m'.area
  unfolding store_bit
  Move-inside (claim {k = k} {byte = byte}) =
      omega (arith, length-set m.area (k / 8) (set_bit byte (k % 8)))
  Move-inside mv = inside

  Move-counted :
      {p p' : Pc} {m' : Memory}
      → Move w m p m' p'
      → pc w ≡ p
      → (j : ℕ) → j < 8 * size
      → claims j m'.history ≡ area_bit m'.area j
  Move-counted (claim {k = k} {byte = byte}) e j lt = ground (
    arith,
    claim_bits size m.area k byte j bytes (subst (Knows size m.area) e (knows w)) lt,
    subst (Knows size m.area) e (knows w),
    counted j lt,
  )
  Move-counted mv e j lt = counted j lt

  Move-locked :
      {p p' : Pc} {m' : Memory}
      → Move w m p m' p'
      → pc w ≡ p
      → (v : ℕ) → holding (update pc w p' v) ≡ true
      → m'.free ≡ false
  Move-locked (lock free) e v h = refl
  Move-locked mv e v h = ground (arith, locked v, locked w, single v w)

  Move-single :
      {p p' : Pc} {m' : Memory}
      → Move w m p m' p'
      → pc w ≡ p
      → (u v : ℕ) → holding (update pc w p' u) ≡ true
      → holding (update pc w p' v) ≡ true
      → u ≡ v
  Move-single (lock free) e u v hu hv = ground (arith, single u v, locked u, locked v)
  Move-single mv e u v hu hv = ground (arith, single u v, single u w, single w v)

  -- What the mover knows at its new place.
  Move-Knows :
      {p p' : Pc} {m' : Memory} → Move w m p m' p' → Knows size m.area p → Knows size m'.area p'
  Move-Knows (see_clear lt clear) q = q
  Move-Knows (see_set {k = k} lt set_now) q = Passed-suc size m.area k set_now q
  Move-Knows (at_end {k = k} past) q = λ j a b. q j (omega (arith, inside)) b
  Move-Knows (lock free) q = q
  Move-Knows interrupted q = q
  Move-Knows lock_fails q = tt
  Move-Knows (still_clear clear read) q = λ lt. (clear, read)
  Move-Knows (taken {k = k} set_now) q = Passed-suc size m.area k set_now q
  Move-Knows claim q = tt
  Move-Knows post q = tt
  Move-Knows post_fails q = tt
  Move-Knows post_skip q = q
  Move-Knows post_skip_fails q = tt
  Move-Knows (again r v) q = λ j a b. absurd (omega arith)

  -- What another worker knows stays true.
  Move-others :
      {p p' : Pc} {m' : Memory}
      → Move w m p m' p'
      → pc w ≡ p
      → (v : ℕ) → w ≢ v
      → Knows size m'.area (pc v)
  Move-others (claim {k = k} {byte = byte}) e v ne =
      Knows-mono size m.area (store_bit m.area k byte) (pc v)
        (λ j lt one.
          ground (
            arith,
            claim_bits size m.area k byte j bytes (subst (Knows size m.area) e (knows w)) lt,
          ))
        (ground (arith, single v w)) (knows v)
  Move-others mv e v ne = knows v

  Move-all :
      {p p' : Pc} {m' : Memory}
      → Move w m p m' p'
      → pc w ≡ p
      → (v : ℕ) → Knows size m'.area (update pc w p' v)
  Move-all {p' = p'} {m' = m'} mv e v = elim (ℕ_discrete w v) [
    | yes same ↦
        subst (Knows size m'.area) (ground arith)
          (Move-Knows mv (subst (Knows size m.area) e (knows w)))
    | no differs ↦ subst (Knows size m'.area) (ground arith) (Move-others mv e v differs)
  ]

  pub Move-Inv : {p : Pc} {m' : Memory} → Move w m (pc w) m' p → Inv size m' (update pc w p)
  Move-Inv mv = record {
    bytes = Move-bytes mv;
    inside = Move-inside mv;
    counted = Move-counted mv refl;
    locked = Move-locked mv refl;
    single = Move-single mv refl;
    knows = Move-all mv refl;
  }

other-Inv :
    {size : ℕ} {m : Memory} {pc : ℕ → Pc} (i byte : ℕ)
    → size ≤ i
    → byte < 256
    → Inv size m pc
    → Inv size (record m { area = set m.area i byte }) pc
other-Inv {size} {m} {pc} i byte h small inv = record {
  bytes = set_bytes m.area i byte inv.bytes small;
  inside = omega (arith, length-set m.area i byte, inv.inside);
  counted = λ j lt. inv.counted j lt ∙ sym (behind m.area size i byte j h lt);
  locked = inv.locked;
  single = inv.single;
  knows = λ w. Knows-behind size m.area i byte (pc w) h (inv.knows w);
}

start-Inv : {size : ℕ} (m : Memory) → IsFresh size m → Inv size m (λ w. scanning 0)
start-Inv m f = record {
  bytes = f.bytes;
  inside = f.inside;
  counted = λ k lt. ground (arith, f.nothing, f.clear k lt);
  locked = λ w h. cc;
  single = λ v w h. cc;
  knows = λ w j a b. absurd (omega arith);
}

pub Reach-Inv : {size : ℕ} {s : System} → Reach size s → Inv size s.mem s.pc
Reach-Inv (start m f) = start-Inv m f
Reach-Inv (later r (pick w mv)) = Move-Inv (Reach-Inv r) w mv
Reach-Inv (later r (other i byte h small)) = other-Inv i byte h small (Reach-Inv r)
