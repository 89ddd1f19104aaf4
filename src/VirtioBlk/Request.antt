-- ===== src/VirtioBlk/Request.antt =====
-- operation_sync of src/drivers/virtio_blk.rs: how a request ends, and what it leaves of the bitmap.
use mini_visor_real_device.Base.{
  ℕ, suc, ◌-◌, ◌%◌, ◌^◌, ◌<◌, ◌≡◌, refl, subst, ap, ◌∙◌, inr, Bool, ◌==◌, Option, none, some, List,
  if◌then◌else◌, bit_and, bit_or, as_word, bit_and_mask, ◌<<<◌, ◌>>>◌,
}
use mini_visor_real_device.VirtioBlk.{
  VirtioBlk, VirtioBlkReq, err, spin, allocate_descriptor, operation_status, operation_buffer,
  operation_sync, virt_queue_desc_flags_next, virt_queue_desc_flags_write, virtio_blk_type_in,
  virtio_blk_type_out,
}
use mini_visor_real_device.VirtioBlk.Bitmap.{free_bit, Allocated, allocate_descriptor-Allocated}
use mini_visor_real_device.VirtioBlk.Chain.{
  IsDriver, Ended, Ends, Ends-same, mark, fill-done, publish-done, complete-Ends, Allocated-Took,
  unmark, unmark_two,
}

-- The chain from the third descriptor on, behind the two that are taken.
status-Ends :
    (device : VirtioBlkReq → VirtioBlk → List ℕ) (req status_address status : ℕ)
    (answers : (r : VirtioBlkReq) (q : VirtioBlk) → spin (device r q) ≡ some status) (b : VirtioBlk)
    (request : VirtioBlkReq) (first second : ℕ)
    → IsDriver b
    → first < 64
    → second < 64
    → Ends b.notified status
        (mark second (mark first (free_bit b.free_bitmap)))
        (operation_status device req status_address b request first second)
unfolding operation_status Ended
status-Ends device req status_address status answers b request first second valid lt lt' =
    from (allocate_descriptor b) refl (allocate_descriptor-Allocated b valid.bitmap)
  where
    from :
        (o : Option (ℕ × VirtioBlk))
        → allocate_descriptor b ≡ o
        → Allocated b o
        → Ends b.notified status
            (mark second (mark first (free_bit b.free_bitmap)))
            (operation_status device req status_address b request first second)
    from none eq all = record {
      outcome = err b;
      runs = rw (eq, operation_status) refl;
      ended = inr (refl, unfold Allocated in all);
    }
    from (some (third, b₁)) eq all =
        let t = Allocated-Took b third b₁ valid all in
        let (b₂, e₂, v₂, m₂, n₂) =
          fill-done b₁ third
            (λ d. record d {
              address = status_address;
              length = 1;
              flags = virt_queue_desc_flags_write;
            })
            t.valid t.lt in
        let (b₃, e₃, v₃, m₃, n₃) = fill-done b₂ second (λ d. record d { next = third }) v₂ lt' in
        let (b₄, e₄, v₄, m₄, n₄) = publish-done b₃ first v₃ in
        let c =
          complete-Ends b₄ first second third b.notified status (device request b₄) v₄ lt lt' t.lt
            (answers request b₄) (n₄ ∙ ap suc (n₃ ∙ n₂ ∙ t.sent)) in
        let m : b₄.free_bitmap ≡ b₁.free_bitmap = m₄ ∙ m₃ ∙ m₂ in
        Ends-same
          (λ k h.
            unmark third second first (free_bit b₄.free_bitmap k) (free_bit b.free_bitmap k) k
              (ap (λ x. if third == k then 1 else free_bit x k) m ∙ t.back k))
          (record {
            outcome = c.outcome;
            runs = rw (eq, operation_status, e₂, e₃, e₄) c.runs;
            ended = c.ended;
          })

-- The chain from the second descriptor on, behind the first one.
buffer-Ends :
    (device : VirtioBlkReq → VirtioBlk → List ℕ) (req status_address status : ℕ)
    (answers : (r : VirtioBlkReq) (q : VirtioBlk) → spin (device r q) ≡ some status) (b : VirtioBlk)
    (request : VirtioBlkReq) (first buffer_address size : ℕ) (is_write : Bool)
    → IsDriver b
    → first < 64
    → Ends b.notified status
        (mark first (free_bit b.free_bitmap))
        (operation_buffer device req status_address b request first buffer_address size is_write)
unfolding operation_buffer Ended
buffer-Ends device req status_address status answers b request first buffer_address size is_write
      valid lt =
    from (allocate_descriptor b) refl (allocate_descriptor-Allocated b valid.bitmap)
  where
    from :
        (o : Option (ℕ × VirtioBlk))
        → allocate_descriptor b ≡ o
        → Allocated b o
        → Ends b.notified status (mark first (free_bit b.free_bitmap)) (
            operation_buffer device req status_address b request first buffer_address size is_write)
    from none eq all = record {
      outcome = err b;
      runs = rw (eq, operation_buffer) refl;
      ended = inr (refl, unfold Allocated in all);
    }
    from (some (second, b₁)) eq all =
        let t = Allocated-Took b second b₁ valid all in
        let (b₂, e₂, v₂, m₂, n₂) =
          fill-done b₁ second
            (λ d. record d {
              address = buffer_address;
              length = as_word 32 size;
              flags =
                  if is_write
                  then virt_queue_desc_flags_next
                  else bit_or virt_queue_desc_flags_next virt_queue_desc_flags_write;
            })
            t.valid t.lt in
        let (b₃, e₃, v₃, m₃, n₃) = fill-done b₂ first (λ d. record d { next = second }) v₂ lt in
        let c =
          status-Ends device req status_address status answers b₃ request first second v₃ lt t.lt in
        let m : b₃.free_bitmap ≡ b₁.free_bitmap = m₃ ∙ m₂ in
        let n : b₃.notified ≡ b.notified = n₃ ∙ n₂ ∙ t.sent in
        Ends-same
          (λ k h.
            unmark_two second first (free_bit b₃.free_bitmap k) (free_bit b.free_bitmap k) k
              (ap (λ x. if second == k then 1 else free_bit x k) m ∙ t.back k))
          (record {
            outcome = c.outcome;
            runs = rw (eq, operation_buffer, e₂, e₃) c.runs;
            ended =
                subst
                  (λ x.
                    Ended x status (mark second (mark first (free_bit b₃.free_bitmap))) c.outcome)
                  n c.ended;
          })

-- On a driver whose arrays have their sizes, a request whose address and length are whole sectors
-- ends, if the device's status byte is seen to change to one and the same value in the end: its
-- result is Ok exactly when the answer is 0, the device was notified once, and every descriptor is
-- free that was free before. Only for want of a descriptor is it Err without a notification, and
-- then no descriptor is free any more.
pub operation_sync-Ends :
    (device : VirtioBlkReq → VirtioBlk → List ℕ) (req status_address status : ℕ)
    (answers : (r : VirtioBlkReq) (q : VirtioBlk) → spin (device r q) ≡ some status) (b : VirtioBlk)
    (buffer_address block_address size : ℕ) (is_write : Bool)
    → IsDriver b
    → block_address % 2 ^ 9 ≡ 0
    → size % 2 ^ 9 ≡ 0
    → Ends b.notified status
        (free_bit b.free_bitmap)
        (operation_sync device req status_address b buffer_address block_address size is_write)
unfolding operation_sync Ended
operation_sync-Ends device req status_address status answers b buffer_address block_address size
      is_write valid sector sectors =
    from (allocate_descriptor b) refl (allocate_descriptor-Allocated b valid.bitmap)
  where
    aligned : bit_and block_address (1 <<< 9 - 1) ≡ 0
    aligned = bit_and_mask 9 block_address ∙ sector

    whole : bit_and size (1 <<< 9 - 1) ≡ 0
    whole = bit_and_mask 9 size ∙ sectors

    from :
        (o : Option (ℕ × VirtioBlk))
        → allocate_descriptor b ≡ o
        → Allocated b o
        → Ends b.notified status
            (free_bit b.free_bitmap)
            (operation_sync device req status_address b buffer_address block_address size is_write)
    from none eq all = record {
      outcome = err b;
      runs = rw (aligned, whole, eq, operation_sync) refl;
      ended = inr (refl, unfold Allocated in all);
    }
    from (some (first, b₁)) eq all =
        let t = Allocated-Took b first b₁ valid all in
        let (b₂, e₂, v₂, m₂, n₂) =
          fill-done b₁ first
            (λ d. record d { address = req; length = 16; flags = virt_queue_desc_flags_next })
            t.valid t.lt in
        let request : VirtioBlkReq = record {
          req_type = if is_write then virtio_blk_type_out else virtio_blk_type_in;
          reserved = 0;
          sector = block_address >>> 9;
        } in
        let c =
          buffer-Ends device req status_address status answers b₂ request first buffer_address size
            is_write v₂ t.lt in
        Ends-same (λ k h. ap (λ x. if first == k then 1 else free_bit x k) m₂ ∙ t.back k)
          (record {
            outcome = c.outcome;
            runs = rw (aligned, whole, eq, operation_sync, e₂) c.runs;
            ended =
                subst (λ x. Ended x status (mark first (free_bit b₂.free_bitmap)) c.outcome)
                  (n₂ ∙ t.sent) c.ended;
          })
