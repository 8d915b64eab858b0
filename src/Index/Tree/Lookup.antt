-- ===== src/Index/Tree/Lookup.antt =====
-- `findRecord` and `get` of `BPlusTree` on pages whose keys stand in order.
use database_internals.Prelude.{
  ℕ, zero, suc, ◌^◌, ◌==◌, ◌<◌, ◌≤◌, ◌≡◌, refl, sym, ap, ◌∙◌, ◌⊎◌, inl, inr, true, false, none,
  some, [], ◌∷◌, ok, undefined, ◌>>=◌, arith, Bool-cases, Option-cases, ok-injective, subst,
  if◌then◌else◌, ltb,
}
use database_internals.Memory.{Memory}
use database_internals.Storage.DiskManager.{System, DiskManager, page_size, read_page}
use database_internals.Storage.SlottedPage.{
  leaf_page, page_type, page_type_code, slot_count, get_record,
}
use database_internals.Storage.SlottedPage.Layout.{get_record-past}
use database_internals.Types.Value.{Sign, less, same, greater, numeric, Value}
use database_internals.Index.Key.{Key, KeyFormat, compare_keys, extract_key, to_value, bytes_read}
use database_internals.Index.Search.Leaf.{search_leaf-IsLowerBound, IsLowerBound}
use database_internals.Index.Tree.{
  BtStack, FindRecordMetadata, BPlusTree, is_less, is_same, is_live, record_bytes, slot_key,
  smaller_record, child_slot_of, child_at, leaf_slot_of, descend, find_record, get,
}

module _ (kf : KeyFormat) where
  -- The keys of a page's live slots can be compared with a key, with these results, and stand in
  -- order.
  pub record IsOrdered (page : Memory) (target : Key) (s : ℕ → Sign) : Type 0 where
    pub small : slot_count page < 2 ^ 16
    pub read :
        (i : ℕ) → is_live page i ≡ true → compare_keys kf (slot_key kf page i) target ≡ ok (s i)
    pub sorted :
        (i j : ℕ) → i ≤ j → is_live page i ≡ true → is_live page j ≡ true → s j ≡ less → s i ≡ less

  is_less-less : (s : Sign) → is_less s ≡ true → s ≡ less
  is_less-less less h = refl
  is_less-less same h = cc
  is_less-less greater h = cc

  pub is_live-inside : (page : Memory) (i : ℕ) → is_live page i ≡ true → i < slot_count page
  unfolding is_live
  is_live-inside page i h = elim (Bool-cases (ltb i (slot_count page))) [
    | inl y ↦ ground arith
    | inr n ↦ absurd (ground (arith, get_record-past page i (ground (arith, n))))
  ]

  -- In a leaf in order the slot that is found is the first live one whose key is not smaller than
  -- the target, if there is one.
  leaf_slot_of-IsLowerBound :
      (page : Memory) (target : Key) (s : ℕ → Sign)
      → IsOrdered page target s
      → (r : ℕ) × (leaf_slot_of kf target page ≡ ok r)
        × IsLowerBound (is_live page) (λ i. is_less (s i)) (slot_count page) r
  unfolding leaf_slot_of smaller_record
  leaf_slot_of-IsLowerBound page target s v =
      search_leaf-IsLowerBound (is_live page) (λ i. is_less (s i)) (smaller_record kf target page)
        (slot_count page) v.small (is_live-inside page)
        (λ i l. ap (λ o. o >>= λ x. ok (is_less x)) (v.read i l))
        (λ i j a l m y. ap is_less (v.sorted i j a l m (is_less-less (s j) y)))

  -- The way from a page down to a leaf, for a key.
  pub data Leads (sys : System) (d : DiskManager) (target : Key)
      : (page_id depth leaf : ℕ) → Memory → Type 0 where
    arrives :
        {p : ℕ} {page : Memory}
        → read_page sys d p ≡ ok page
        → (page_type page == page_type_code leaf_page) ≡ true
        → Leads sys d target p 0 p page
    goes_down :
        {p n leaf : ℕ} {last : Memory} (page : Memory) (slot child : ℕ)
        → read_page sys d p ≡ ok page
        → (page_type page == page_type_code leaf_page) ≡ false
        → child_slot_of kf target page ≡ ok slot
        → child_at page slot ≡ ok child
        → Leads sys d target child n leaf last
        → Leads sys d target p (suc n) leaf last

  Leads-read :
      (sys : System) (d : DiskManager) (target : Key) (p depth leaf : ℕ) (last : Memory)
      → Leads sys d target p depth leaf last
      → (page : Memory) × (read_page sys d p ≡ ok page)
  Leads-read sys d target p depth leaf last (arrives r ty) = (last, r)
  Leads-read sys d target p depth leaf last (goes_down page slot child r ty cs ca way) = (page, r)

  descend-down :
      (sys : System) (d : DiskManager) (target : Key) (p child slot fuel : ℕ) (page next : Memory)
      (stack : BtStack)
      → (page_type page == page_type_code leaf_page) ≡ false
      → child_slot_of kf target page ≡ ok slot
      → child_at page slot ≡ ok child
      → read_page sys d child ≡ ok next
      → descend kf sys (suc fuel) d target p page stack
        ≡ descend kf sys fuel d target child next
            (record { page_id = p; child_slot = slot } ∷ stack)
  unfolding descend
  descend-down sys d target p child slot fuel page next stack ty cs ca en =
      rw (descend, ty, cs, ca, en) refl

  -- With more fuel than the way is long the loop of `findRecord` returns the leaf and its bytes.
  descend-Leads :
      (sys : System) (d : DiskManager) (target : Key) (p depth leaf fuel : ℕ) (page last : Memory)
      (stack : BtStack)
      → Leads sys d target p depth leaf last
      → read_page sys d p ≡ ok page
      → depth < fuel
      → (found : BtStack) × (descend kf sys fuel d target p page stack ≡ ok (leaf, last, found))
        × (read_page sys d leaf ≡ ok last)
  unfolding descend
  descend-Leads sys d target p depth leaf zero page last stack way e k = absurd (omega arith)
  descend-Leads sys d target p depth leaf (suc fuel) page last stack (arrives {page = pg} r ty) e
        k =
      let same : pg ≡ page = ok-injective (sym r ∙ e) in
      (
        stack,
        rw
            (
              descend,
              subst (λ (m : Memory). (page_type m == page_type_code leaf_page) ≡ true) same ty,
            )
            (ap (λ m. ok (p, m, stack)) (sym same)),
        r,
      )
  descend-Leads sys d target p (suc n) leaf (suc fuel) page last stack
        (goes_down pg slot child r ty cs ca way) e k =
      let same : pg ≡ page = ok-injective (sym r ∙ e) in
      let (next, en) = Leads-read sys d target child n leaf last way in
      let (found, ef, el) =
        descend-Leads sys d target child n leaf fuel next last
          (record { page_id = p; child_slot = slot } ∷ stack) way en (omega (arith, k)) in
      (
        found,
        ap (λ m. descend kf sys (suc fuel) d target p m stack) (sym same)
            ∙ descend-down sys d target p child slot fuel pg next stack ty cs ca en
            ∙ ef,
        el,
      )

  -- A key that is looked for: the search ends at this leaf.
  pub find_record-Leads :
      (sys : System) (t : BPlusTree) (target : Key) (depth leaf fuel : ℕ) (last : Memory)
      → Leads sys t.disk target t.root_page_id depth leaf last
      → depth < fuel
      → (found : BtStack) × (find_record kf sys fuel t target ≡ (
          leaf_slot_of kf target last >>= λ slot.
          ok (record { leaf_page = leaf; leaf_slot = slot; bt_stack = found })))
        × (read_page sys t.disk leaf ≡ ok last)
  unfolding find_record
  find_record-Leads sys t target depth leaf fuel last way k =
      let (root, er) = Leads-read sys t.disk target t.root_page_id depth leaf last way in
      let (found, e, el) =
        descend-Leads sys t.disk target t.root_page_id depth leaf fuel root last [] way er k in
      (found, rw (er, e) refl, el)

  -- `findRecord` on the way to a leaf whose live keys stand in order, with more fuel than the way
  -- is long: it returns that leaf, and in it the first live slot whose key is not smaller than the
  -- target, if there is one, and otherwise a slot from which on none is live; all live keys before
  -- that slot are smaller.
  pub find_record-IsLowerBound :
      (sys : System) (t : BPlusTree) (target : Key) (depth leaf fuel : ℕ) (last : Memory)
      (s : ℕ → Sign)
      → Leads sys t.disk target t.root_page_id depth leaf last
      → depth < fuel
      → IsOrdered last target s
      → (f : FindRecordMetadata) × (find_record kf sys fuel t target ≡ ok f)
        × (f.leaf_page ≡ leaf)
        × IsLowerBound (is_live last) (λ i. is_less (s i)) (slot_count last) f.leaf_slot
  find_record-IsLowerBound sys t target depth leaf fuel last s way k v =
      let (stack, e, el) = find_record-Leads sys t target depth leaf fuel last way k in
      let (r, er, b) = leaf_slot_of-IsLowerBound last target s v in
      (
        record { leaf_page = leaf; leaf_slot = r; bt_stack = stack },
        e
            ∙ ap
                (λ o. o >>= λ slot.
                  ok (record { leaf_page = leaf; leaf_slot = slot; bt_stack = stack }))
                er,
        refl,
        b,
      )

  -- The key of a slot that is not live is the one of no bytes.
  slot_key-dead :
      (page : Memory) (i : ℕ)
      → is_live page i ≡ false
      → slot_key kf page i ≡ extract_key kf page page_size none
  unfolding slot_key is_live extract_key
  slot_key-dead page i h = elim (Option-cases (get_record page i)) [
    | inl e ↦ rw (slot_key, e) refl
    | inr ((o, len), e) ↦ let zero : len ≡ 0 = ground (arith, e, h) in rw (slot_key, e, zero) refl
  ]

  compare-empty :
      (page : Memory) (target : Key) (a : Value)
      → kf.key_type_id ≡ numeric
      → 1 < kf.key_width
      → to_value kf target ≡ ok a
      → compare_keys kf target (extract_key kf page page_size none) ≡ undefined
  unfolding compare_keys to_value extract_key bytes_read
  compare-empty page target a ty w e =
      let empty = extract_key kf page page_size none in
      let reads : bytes_read empty ≡ kf.key_width = rw (bytes_read, ty) refl in
      let none_there : to_value kf empty ≡ undefined = ground (arith, reads, w) in
      rw (compare_keys, e, none_there) refl

  -- What `get` answers for a slot.
  get-at :
      (sys : System) (t : BPlusTree) (target : Key) (fuel leaf r : ℕ) (stack : BtStack)
      (last : Memory)
      → find_record kf sys fuel t target
        ≡ ok (record { leaf_page = leaf; leaf_slot = r; bt_stack = stack })
      → read_page sys t.disk leaf ≡ ok last
      → get kf sys fuel t target ≡ (
          compare_keys kf target (slot_key kf last r) >>= λ c.
          ok (if is_same c then some (record_bytes last (get_record last r)) else none))
  unfolding get
  get-at sys t target fuel leaf r stack last e el = rw (e, el) refl

  abbrev pub mirrored : Sign → Sign
  mirrored less = greater
  mirrored same = same
  mirrored greater = less

  is_same-mirrored : (s : Sign) → is_same (mirrored s) ≡ is_same s
  is_same-mirrored less = refl
  is_same-mirrored same = refl
  is_same-mirrored greater = refl

  -- What `get` answers for a key of a tree whose leaf, where the way for the key ends, has its live
  -- keys in order: the record of the first live slot whose key is not smaller, if the two keys are
  -- equal, and otherwise nothing; but where every live key of the leaf is smaller, the call runs
  -- into undefined behaviour, since the key of the slot behind them is read from the literal "".
  pub get-IsOrdered :
      (sys : System) (t : BPlusTree) (target : Key) (depth leaf fuel : ℕ) (last : Memory)
      (s : ℕ → Sign) (a : Value)
      → Leads sys t.disk target t.root_page_id depth leaf last
      → depth < fuel
      → IsOrdered last target s
      → ((i : ℕ)
          → is_live last i ≡ true
          → compare_keys kf target (slot_key kf last i) ≡ ok (mirrored (s i)))
      → kf.key_type_id ≡ numeric
      → 1 < kf.key_width
      → to_value kf target ≡ ok a
      → ((r : ℕ) × (is_live last r ≡ true)
          × (is_less (s r) ≡ false)
          × ((i : ℕ) → i < r → is_live last i ≡ true → is_less (s i) ≡ true)
          × (get kf sys fuel t target
              ≡ ok (if is_same (s r) then some (record_bytes last (get_record last r)) else none)))
        ⊎ (((i : ℕ) → is_live last i ≡ true → is_less (s i) ≡ true)
            × (get kf sys fuel t target ≡ undefined))
  get-IsOrdered sys t target depth leaf fuel last s a way k v mirror ty w ea =
      let (stack, e, el) = find_record-Leads sys t target depth leaf fuel last way k in
      let (r, er, b) = leaf_slot_of-IsLowerBound last target s v in
      let found =
        e
        ∙ ap
            (λ o.
              o >>= λ slot. ok (record { leaf_page = leaf; leaf_slot = slot; bt_stack = stack }))
            er in
      let at_r = get-at sys t target fuel leaf r stack last found el in
      elim b.found [
        | inl (inside, live, m) ↦ inl (
          r,
          live,
          m,
          b.before,
          at_r
              ∙ ap
                  (λ o. o >>= λ c.
                    ok (if is_same c then some (record_bytes last (get_record last r)) else none))
                  (mirror r live)
              ∙ ap (λ c. ok (if c then some (record_bytes last (get_record last r)) else none))
                  (is_same-mirrored (s r)),
        )
        | inr (inside, dead, all) ↦ inr (
          λ i l. elim (Bool-cases (ltb i r)) [
            | inl y ↦ b.before i (ground arith) l
            | inr x ↦ absurd (ground (arith, x, l, all i (ground arith) (is_live-inside last i l)))
          ],
          at_r
              ∙ ap
                  (λ o. o >>= λ c.
                    ok (if is_same c then some (record_bytes last (get_record last r)) else none))
                  (ap (compare_keys kf target) (slot_key-dead last r dead)
                    ∙ compare-empty last target a ty w ea),
        )
      ]
