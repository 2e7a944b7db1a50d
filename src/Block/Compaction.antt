-- ===== src/Block/Compaction.antt =====
-- The two loops of `delete_item` of myjql/src/block.c: the bytes that move and the ids that follow.
use course_pj.Base.{
  ℕ, zero, suc, ◌+◌, ◌-◌, ◌*◌, ◌≤◌, ◌<◌, ◌≡◌, refl, ◌∙◌, ap, ◌≢◌, inl, inr, arith, ltb, Bytes,
  write, if◌then◌else◌, eq-cases,
}
use course_pj.Base.Memory.Laws.{Apart, write_self, write-ne}
use course_pj.Block.{
  get_item_id, get_item_id_availability, get_item_id_offset, get_item_id_size, compose_item_id,
  header_size, move_up, relocate_item, relocate_items,
}
use course_pj.Block.Items.{compose-lt, get_item_id-set_self, get_item_id-set_ne, set_item_id-byte}

-- The bytes that `move_up` leaves, and those that it moves.
pub move_up-kept :
    (m : Bytes) (t s n b : ℕ) → 6 ≤ t → Apart b 1 (t + s - header_size) n → move_up m t s n b ≡ m b
unfolding move_up
move_up-kept m t s zero b h a = refl
move_up-kept m t s (suc n) b h a =
    move_up-kept (write m (t + n + s - header_size) (m (t + n - header_size))) t s n b h
      (omega arith)
    ∙ write-ne m (t + n + s - header_size) (m (t + n - header_size)) b (λ e. omega arith)

pub move_up-moved :
    (m : Bytes) (t s n j : ℕ)
    → 6 ≤ t
    → 0 < s
    → j < n
    → move_up m t s n (t + j + s - header_size) ≡ m (t + j - header_size)
unfolding move_up
move_up-moved m t s zero j h p lt = absurd (omega arith)
move_up-moved m t s (suc n) j h p lt = elim (eq-cases j n) [
  | inl e ↦ rw e (
      move_up-kept (write m (t + n + s - header_size) (m (t + n - header_size))) t s n
        (t + n + s - header_size) h (omega arith)
      ∙ write_self m (t + n + s - header_size) (m (t + n - header_size)))
  | inr ne ↦
      move_up-moved (write m (t + n + s - header_size) (m (t + n - header_size))) t s n j h p
        (omega arith)
      ∙ write-ne m (t + n + s - header_size) (m (t + n - header_size)) (t + j - header_size)
          (λ e. omega arith)
]

-- The id of an item after the one at `pos`, of `size` bytes, has gone.
abbrev pub relocated : ℕ → ℕ → ℕ → ℕ
relocated pos size v =
    if ltb (get_item_id_offset v) pos
    then compose_item_id (get_item_id_availability v) (get_item_id_offset v + size)
        (get_item_id_size v)
    else v

module _ (pos size : ℕ) where
  relocate_item_self :
      (m : Bytes) (i : ℕ)
      → get_item_id (relocate_item m pos size i) i ≡ relocated pos size (get_item_id m i)
  unfolding relocate_item
  relocate_item_self m i = ground (
    arith,
    get_item_id-set_self m i
        (compose_item_id (get_item_id_availability (get_item_id m i))
          (get_item_id_offset (get_item_id m i) + size) (get_item_id_size (get_item_id m i)))
        (compose-lt (get_item_id_availability (get_item_id m i))
          (get_item_id_offset (get_item_id m i) + size) (get_item_id_size (get_item_id m i))),
  )

  relocate_item-ne :
      (m : Bytes) (i j : ℕ) → j ≢ i → get_item_id (relocate_item m pos size i) j ≡ get_item_id m j
  unfolding relocate_item
  relocate_item-ne m i j n = ground (
    arith,
    get_item_id-set_ne m i j
        (compose_item_id (get_item_id_availability (get_item_id m i))
          (get_item_id_offset (get_item_id m i) + size) (get_item_id_size (get_item_id m i)))
        n,
  )

  relocate_item-byte : (m : Bytes) (i b : ℕ) → 4 * i + 4 ≤ b → relocate_item m pos size i b ≡ m b
  unfolding relocate_item
  relocate_item-byte m i b h = ground (
    arith,
    set_item_id-byte m i
        (compose_item_id (get_item_id_availability (get_item_id m i))
          (get_item_id_offset (get_item_id m i) + size) (get_item_id_size (get_item_id m i)))
        b h,
  )

  relocate_items-beyond :
      (m : Bytes) (n j : ℕ) → n ≤ j → get_item_id (relocate_items m pos size n) j ≡ get_item_id m j
  unfolding relocate_items
  relocate_items-beyond m zero j h = refl
  relocate_items-beyond m (suc n) j h =
      relocate_item-ne (relocate_items m pos size n) n j (omega arith)
      ∙ relocate_items-beyond m n j (omega arith)

  pub relocate_items-id :
      (m : Bytes) (n j : ℕ)
      → j < n
      → get_item_id (relocate_items m pos size n) j ≡ relocated pos size (get_item_id m j)
  unfolding relocate_items
  relocate_items-id m zero j h = absurd (omega arith)
  relocate_items-id m (suc n) j h = elim (eq-cases j n) [
    | inl e ↦ rw e (
        relocate_item_self (relocate_items m pos size n) n
        ∙ ap (relocated pos size) (relocate_items-beyond m n n (omega arith)))
    | inr ne ↦
        relocate_item-ne (relocate_items m pos size n) n j ne
        ∙ relocate_items-id m n j (omega arith)
  ]

  pub relocate_items-byte : (m : Bytes) (n b : ℕ) → 4 * n ≤ b → relocate_items m pos size n b ≡ m b
  unfolding relocate_items
  relocate_items-byte m zero b h = refl
  relocate_items-byte m (suc n) b h =
      relocate_item-byte (relocate_items m pos size n) n b (omega arith)
      ∙ relocate_items-byte m n b (omega arith)
