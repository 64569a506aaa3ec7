-- ===== src/Memory/Frames/Owned.antt =====
-- Tables of slots that own pages, the shape that CopyOnWriteManager, SwapManager and PageCache share.
use uefi_boot_system.Prelude.{
  ℕ, ◌*◌, ◌<◌, ◌≡◌, ◌≢◌, ap, sym, ◌∙◌, subst, Bool, true, false, List, arith, length, get_or, set,
  get_or-set_self, get_or-set_ne, replicate, get_or-replicate, map, get_or-map_same, ℕ_discrete,
}
use uefi_boot_system.Memory.Pmm.{
  PhysicalMemory, managed_page_count, page_size, is_page_free, free_page,
}
use uefi_boot_system.Memory.Frames.{Apart}
use uefi_boot_system.Memory.Pmm.Bitmap.{IsValid}
use uefi_boot_system.Memory.Pmm.Page.{TakesPage, free_page_lem}

-- The address is that of a managed page other than page 0, which the page manager holds used.
pub record Uses (p : PhysicalMemory) (address : ℕ) : Type 0 where
  pub page : ℕ
  pub positive : 0 < page
  pub managed : page < managed_page_count
  pub address_of : address ≡ page * page_size
  pub is_used : is_page_free p page ≡ false

-- A page just handed out does not overlap a page that was used.
pub fresh-Apart :
    (p : PhysicalMemory) (r : ℕ × PhysicalMemory) (page address : ℕ)
    → TakesPage p r page
    → Uses p address
    → Apart r.0 address
fresh-Apart p r page address t u =
    let other : page ≢ u.page = λ e. cc (u.is_used, t.was_free, e) in
    ground (arith, u.address_of, t.address, other)

module _ {A : Type 0} (active : A → Bool) (physical : A → ℕ) (blank : A) where
  abbrev slot : List A → ℕ → A
  slot table i = get_or table i blank

  -- The page manager is valid and keeps page 0; every active slot has its own used page.
  pub record IsOwned (table : List A) (p : PhysicalMemory) : Type 0 where
    pub valid : IsValid p
    pub reserved : is_page_free p 0 ≡ false
    pub used : (i : ℕ) → active (slot table i) ≡ true → Uses p (physical (slot table i))
    pub apart :
        (i j : ℕ)
        → active (slot table i) ≡ true
        → active (slot table j) ≡ true
        → physical (slot table i) ≡ physical (slot table j)
        → i ≡ j

  -- No active slot has a page that was free.
  not_owned :
      (table : List A) (p : PhysicalMemory) (page i : ℕ)
      → IsOwned table p
      → is_page_free p page ≡ true
      → active (slot table i) ≡ true
      → physical (slot table i) ≢ page * page_size
  not_owned table p page i o free on e =
      let u = o.used i on in
      let same : u.page ≡ page = omega (arith, u.address_of, e) in cc (u.is_used, free, same)

  -- A write to a slot keeps the ownership, where the others keep their pages and the new value has
  -- one of its own.
  pub IsOwned-set :
      (table : List A) (p q : PhysicalMemory) (i : ℕ) (v : A)
      → IsOwned table p
      → IsValid q
      → is_page_free q 0 ≡ false
      → ((j : ℕ) → i ≢ j → active (slot table j) ≡ true → Uses q (physical (slot table j)))
      → (active v ≡ true → Uses q (physical v))
      → ((j : ℕ)
          → i ≢ j
          → active v ≡ true
          → active (slot table j) ≡ true
          → physical (slot table j) ≢ physical v)
      → i < length table
      → IsOwned (set table i v) q
  IsOwned-set table p q i v o valid reserved others own alone lt = record {
    valid = valid;
    reserved = reserved;
    used = used;
    apart = apart;
  }
    where
      here : slot (set table i v) i ≡ v
      here = get_or-set_self table i v blank lt

      there : (j : ℕ) → i ≢ j → slot (set table i v) j ≡ slot table j
      there j ne = get_or-set_ne table i j v blank ne

      used :
          (j : ℕ)
          → active (slot (set table i v) j) ≡ true
          → Uses q (physical (slot (set table i v) j))
      used j on = elim (ℕ_discrete i j) [
        | yes e ↦
            let same : slot (set table i v) j ≡ v =
              subst (λ t. slot (set table i v) t ≡ v) e here in
            subst (λ t. Uses q (physical t)) (sym same) (own (sym (ap active same) ∙ on))
        | no ne ↦
            subst (λ t. Uses q (physical t)) (sym (there j ne))
              (others j ne (sym (ap active (there j ne)) ∙ on))
      ]

      apart :
          (j k : ℕ)
          → active (slot (set table i v) j) ≡ true
          → active (slot (set table i v) k) ≡ true
          → physical (slot (set table i v) j) ≡ physical (slot (set table i v) k)
          → j ≡ k
      apart j k on on' same = elim (ℕ_discrete i j) [
        | yes e ↦ elim (ℕ_discrete i k) [
          | yes e' ↦ sym e ∙ e'
          | no ne ↦
              let old = there k ne in
              absurd (
                alone k ne (cc (on, e, here)) (sym (ap active old) ∙ on') (cc (same, e, here, old)))
        ]
        | no ne ↦ elim (ℕ_discrete i k) [
          | yes e ↦
              let old = there j ne in
              absurd (
                alone j ne (cc (on', e, here)) (sym (ap active old) ∙ on) (cc (same, e, here, old)))
          | no ne' ↦
              o.apart j k (sym (ap active (there j ne)) ∙ on) (sym (ap active (there k ne')) ∙ on')
                (cc (same, there j ne, there k ne'))
        ]
      ]

  -- A free slot that gets a page the page manager just handed out.
  pub IsOwned-take :
      (table : List A) (p : PhysicalMemory) (r : ℕ × PhysicalMemory) (page i : ℕ) (v : A)
      → IsOwned table p
      → TakesPage p r page
      → physical v ≡ r.0
      → i < length table
      → IsOwned (set table i v) r.1
  IsOwned-take table p r page i v o t e lt =
      IsOwned-set table p r.1 i v o t.valid (ground (arith, t.taken 0, o.reserved))
        (λ j ne on.
          let u = o.used j on in
          record {
            page = u.page;
            positive = u.positive;
            managed = u.managed;
            address_of = u.address_of;
            is_used = ground (arith, t.taken u.page, u.is_used);
          })
        (λ on. record {
          page = page;
          positive = t.positive;
          managed = t.managed;
          address_of = e ∙ t.address;
          is_used = ground (arith, t.taken page);
        })
        (λ j ne on on' same. not_owned table p page j o t.was_free on' (same ∙ e ∙ t.address)) lt

  -- A slot that keeps its page and stays active.
  pub IsOwned-update :
      (table : List A) (p : PhysicalMemory) (i : ℕ) (v : A)
      → IsOwned table p
      → active (slot table i) ≡ true
      → physical v ≡ physical (slot table i)
      → i < length table
      → IsOwned (set table i v) p
  IsOwned-update table p i v o on e lt =
      IsOwned-set table p p i v o o.valid o.reserved (λ j _ on'. o.used j on')
        (λ _. subst (Uses p) (sym e) (o.used i on))
        (λ j ne _ on' same. ne (o.apart i j on on' (sym (same ∙ e)))) lt

  -- A slot whose page goes back to the page manager, and which is not active any more.
  pub IsOwned-drop :
      (table : List A) (p : PhysicalMemory) (i : ℕ) (v : A)
      → IsOwned table p
      → active (slot table i) ≡ true
      → active v ≡ false
      → i < length table
      → IsOwned (set table i v) (free_page (physical (slot table i)) p)
  IsOwned-drop table p i v o on off lt =
      let mine = o.used i on in
      subst (λ t. IsOwned (set table i v) (free_page t p)) (sym mine.address_of)
        (let (valid, freed) = free_page_lem mine.page p mine.managed o.valid in
          IsOwned-set table p (free_page (mine.page * page_size) p) i v o valid
            (ground (arith, freed 0, o.reserved, mine.positive))
            (λ j ne on'.
              let u = o.used j on' in
              let other : u.page ≢ mine.page =
                λ e. ne (o.apart i j on on' (cc (mine.address_of, u.address_of, e))) in
              record {
                page = u.page;
                positive = u.positive;
                managed = u.managed;
                address_of = u.address_of;
                is_used = ground (arith, freed u.page, u.is_used, other);
              })
            (λ on'. absurd (cc (on', off))) (λ j ne on' _ _. absurd (cc (on', off))) lt)

  -- A table of blank slots.
  pub IsOwned-replicate :
      (n : ℕ) (p : PhysicalMemory)
      → active blank ≡ false
      → IsValid p
      → is_page_free p 0 ≡ false
      → IsOwned (replicate n blank) p
  IsOwned-replicate n p off valid reserved =
      let empty : (i : ℕ) → active (slot (replicate n blank) i) ≡ false =
        λ i. ap active (get_or-replicate n i blank) ∙ off in
      record {
        valid = valid;
        reserved = reserved;
        used = λ i on. absurd (cc (on, empty i));
        apart = λ i j on _ _. absurd (cc (on, empty i));
      }

  -- A map over the slots that keeps their pages and whether they are active.
  pub IsOwned-map :
      (g : A → A) (table : List A) (p : PhysicalMemory)
      → ((a : A) → active (g a) ≡ active a)
      → ((a : A) → physical (g a) ≡ physical a)
      → IsOwned table p
      → IsOwned (map g table) p
  IsOwned-map g table p on page o =
      let on' = λ (i : ℕ). get_or-map_same g active table i blank on in
      let page' = λ (i : ℕ). get_or-map_same g physical table i blank page in
      record {
        valid = o.valid;
        reserved = o.reserved;
        used = λ i h. subst (Uses p) (sym (page' i)) (o.used i (sym (on' i) ∙ h));
        apart = λ i j h h' same.
            o.apart i j (sym (on' i) ∙ h) (sym (on' j) ∙ h') (sym (page' i) ∙ same ∙ page' j);
      }
