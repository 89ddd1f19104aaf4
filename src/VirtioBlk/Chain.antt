-- ===== src/VirtioBlk/Chain.antt =====
-- The steps of operation_sync of src/drivers/virtio_blk.rs: what each leaves of the driver's state.
use mini_visor_real_device.Base.{
  ℕ, suc, ◌+◌, ◌%◌, ◌^◌, ◌<◌, ◌≡◌, ◌≢◌, refl, subst, ap, ◌∙◌, ◌⊎◌, inl, inr, ◌==◌, some, List, Exec,
  done, get_elem?-some, length, length-set, set, arith, if◌then◌else◌, Bool-cases, if-elim,
}
use mini_visor_real_device.VirtioBlk.{
  VirtioBlk, VirtQueueDesc, Outcome, ok, err, waiting, spin, fill, publish, complete,
  virtio_blk_s_ok,
}
use mini_visor_real_device.VirtioBlk.Bitmap.{IsBitmap, free_bit, Allocated}
use mini_visor_real_device.VirtioBlk.Release.{free_descriptor-Freed}

-- The arrays have the sizes of the source's types.
pub record IsDriver (b : VirtioBlk) : Type 0 where
  pub table : length b.descriptors ≡ 64
  pub ring : length b.avail_ring ≡ 64
  pub bitmap : IsBitmap b.free_bitmap

-- The driver's state with another table.
pub fill-done :
    (b : VirtioBlk) (number : ℕ) (change : VirtQueueDesc → VirtQueueDesc)
    → IsDriver b
    → number < 64
    → (b' : VirtioBlk) × (fill b number change ≡ done b')
      × IsDriver b'
      × (b'.free_bitmap ≡ b.free_bitmap)
      × (b'.notified ≡ b.notified)
unfolding fill
fill-done b number change valid lt =
    let (d, e) = get_elem?-some b.descriptors number (omega (arith, valid.table)) in
    (
      record b { descriptors = set b.descriptors number (change d) },
      rw e refl,
      record {
        table = length-set b.descriptors number (change d) ∙ valid.table;
        ring = valid.ring;
        bitmap = valid.bitmap;
      },
      refl,
      refl,
    )

pub publish-done :
    (b : VirtioBlk) (first : ℕ)
    → IsDriver b
    → (b' : VirtioBlk) × (publish b first ≡ done b')
      × IsDriver b'
      × (b'.free_bitmap ≡ b.free_bitmap)
      × (b'.notified ≡ suc b.notified)
unfolding publish
publish-done b first valid =
    let (d, e) = get_elem?-some b.avail_ring (b.avail_idx % 64) (omega (arith, valid.ring)) in
    (
      record b {
        avail_ring = set b.avail_ring (b.avail_idx % 64) first;
        avail_idx = (b.avail_idx + 1) % 2 ^ 16;
        notified = b.notified + 1;
      },
      rw e refl,
      record {
        table = valid.table;
        ring = length-set b.avail_ring (b.avail_idx % 64) first ∙ valid.ring;
        bitmap = valid.bitmap;
      },
      refl,
      omega arith,
    )

-- A bitmap as a function, and the same with one descriptor free.
abbrev pub mark : ℕ → (ℕ → ℕ) → ℕ → ℕ
mark i f k = if i == k then 1 else f k

-- How a request ends, when the device's last word is `status`: `n` notifications were sent before,
-- and `f` says which descriptors are free afterwards. Without a notification the request failed for
-- want of a descriptor, and then none is free.
unfoldable pub Ended : (n status : ℕ) → (ℕ → ℕ) → Outcome → Type 0
Ended n status f (ok b) =
    (status ≡ virtio_blk_s_ok)
    × (b.notified ≡ suc n)
    × ((k : ℕ) → k < 64 → free_bit b.free_bitmap k ≡ f k)
Ended n status f (err b) =
    ((status ≢ virtio_blk_s_ok)
      × (b.notified ≡ suc n)
      × ((k : ℕ) → k < 64 → free_bit b.free_bitmap k ≡ f k))
    ⊎ ((b.notified ≡ n) × ((k : ℕ) → free_bit b.free_bitmap k ≡ 0))
Ended n status f (waiting b) = ⊥

pub record Ends (n status : ℕ) (f : ℕ → ℕ) (run : Exec Outcome) : Type 0 where
  pub outcome : Outcome
  pub runs : run ≡ done outcome
  pub ended : Ended n status f outcome

-- Only the values of `f` below 64 matter.
pub Ends-same :
    {n status : ℕ} {f g : ℕ → ℕ} {run : Exec Outcome}
    → ((k : ℕ) → k < 64 → f k ≡ g k)
    → Ends n status f run
    → Ends n status g run
unfolding Ended
Ends-same {n} {status} {f} {g} same e = record {
  outcome = e.outcome;
  runs = e.runs;
  ended = go e.outcome e.ended;
}
  where
    go : (o : Outcome) → Ended n status f o → Ended n status g o
    go (ok b) (s, m, bits) = (s, m, λ k h. bits k h ∙ same k h)
    go (err b) (inl (s, m, bits)) = inl (s, m, λ k h. bits k h ∙ same k h)
    go (err b) (inr x) = inr x
    go (waiting b) x = x

pub complete-Ends :
    (b : VirtioBlk) (first second third n status : ℕ) (looks : List ℕ)
    → IsDriver b
    → first < 64
    → second < 64
    → third < 64
    → spin looks ≡ some status
    → b.notified ≡ suc n
    → Ends n status
        (mark third (mark second (mark first (free_bit b.free_bitmap))))
        (complete b first second third looks)
unfolding complete Ended
complete-Ends b first second third n status looks valid lt lt' lt'' answer sent =
    let one = free_descriptor-Freed b first valid.bitmap lt in
    let b₁ = record b { free_bitmap = one.bitmap } in
    let two = free_descriptor-Freed b₁ second one.valid lt' in
    let b₂ = record b { free_bitmap = two.bitmap } in
    let three = free_descriptor-Freed b₂ third two.valid lt'' in
    let b₃ = record b { free_bitmap = three.bitmap } in
    record {
      outcome = if status == virtio_blk_s_ok then ok b₃ else err b₃;
      runs = rw (answer, complete, one.runs, two.runs, three.runs) refl;
      ended =
          let bits = λ (k : ℕ) (h : k < 64).
            three.bits k h
            ∙ ap (λ x. if third == k then 1 else x)
                (two.bits k h ∙ ap (λ x. if second == k then 1 else x) (one.bits k h)) in
          if-elim (Ended n status (mark third (mark second (mark first (free_bit b.free_bitmap)))))
            (status == virtio_blk_s_ok) (λ h. (ground arith, sent, bits))
            (λ h. inl (λ e. ground arith, sent, bits));
    }

-- A descriptor was taken: freeing it again gives the bitmap as it was.
pub record Took (b : VirtioBlk) (i : ℕ) (b₁ : VirtioBlk) : Type 0 where
  pub lt : i < 64
  pub valid : IsDriver b₁
  pub sent : b₁.notified ≡ b.notified
  pub back : (k : ℕ) → mark i (free_bit b₁.free_bitmap) k ≡ free_bit b.free_bitmap k

pub Allocated-Took :
    (b : VirtioBlk) (i : ℕ) (b₁ : VirtioBlk) → IsDriver b → Allocated b (some (i, b₁)) → Took b i b₁
unfolding Allocated
Allocated-Took b i b₁ valid (lt, free, below, same, bitmap, others) =
    let table : b₁.descriptors ≡ b.descriptors = ap (λ x. x.descriptors) same in
    let ring : b₁.avail_ring ≡ b.avail_ring = ap (λ x. x.avail_ring) same in
    record {
      lt = lt;
      valid = record {
        table = ap length table ∙ valid.table;
        ring = ap length ring ∙ valid.ring;
        bitmap = bitmap;
      };
      sent = ap (λ x. x.notified) same;
      back = λ k. elim (Bool-cases (i == k)) [
        | inl same_bit ↦
            let e : i ≡ k = ground arith in
            let here : free_bit b.free_bitmap k ≡ 1 =
              subst (λ x. free_bit b.free_bitmap x ≡ 1) e free in
            ground arith
        | inr other ↦ ground (arith, others k)
      ];
    }

pub unmark :
    (third second first x y k : ℕ)
    → (if third == k then 1 else x) ≡ y
    → (if third == k then 1 else if second == k then 1 else if first == k then 1 else x)
      ≡ (if second == k then 1 else if first == k then 1 else y)
unmark third second first x y k h = ground arith

pub unmark_two :
    (second first x y k : ℕ)
    → (if second == k then 1 else x) ≡ y
    → (if second == k then 1 else if first == k then 1 else x) ≡ (if first == k then 1 else y)
unmark_two second first x y k h = ground arith
