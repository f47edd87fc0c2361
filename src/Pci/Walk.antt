-- ===== src/Pci/Walk.antt =====
-- The walk over a device's capabilities (driver/virtio/virtio_pci.c, virtio_find_capabilities).
use picokernel.Prelude.{
  ℕ, zero, suc, ◌+◌, ◌%◌, ◌^◌, ◌<◌, ◌≡◌, ◌≢◌, refl, ap, ◌∙◌, Bool, false, ◌&&◌, ◌||◌, List, [], ◌∷◌,
  arith, ◌==◌, if◌then◌else◌, length, some, ne→==,
}
use picokernel.Mmio.{success, failure}
use picokernel.Pci.{
  Location, Pci, Transport, Found, cap_vendor, cap_common, cap_notify, cap_isr, cap_device,
  reg_capabilities, read_capability, visit, walk, find_capabilities,
}

-- A configuration space whose reads change nothing: what it holds, and where its BARs are.
pub record Space : Type 0 where
  pub byte : Location → ℕ → ℕ
  pub word : Location → ℕ → ℕ
  pub bar : Location → ℕ → ℕ

-- A device reads as the space says.
pub record ReadsAs {D : Type 0} (io : Pci D) (space : Space) : Type 0 where
  pub config_read8 : (d : D) (l : Location) (a : ℕ) → io.config_read8 d l a ≡ (d, space.byte l a)
  pub config_read32 : (d : D) (l : Location) (a : ℕ) → io.config_read32 d l a ≡ (d, space.word l a)
  pub read_bar : (d : D) (l : Location) (b : ℕ) → io.read_bar d l b ≡ (d, space.bar l b)

module _ (space : Space) (l : Location) where
  -- The capabilities at the offsets `caps` form a list from `cap` on.
  abbrev pub CapList : List ℕ → ℕ → Type 0
  CapList [] cap = cap ≡ 0
  CapList (c ∷ caps) cap = (cap ≡ c) × (c ≢ 0) × CapList caps (space.byte l ((c + 1) % 2 ^ 8))

  -- Whether the capability at `c` is the vendor's, of the given type, and whether some one is.
  abbrev pub is_a : ℕ → ℕ → Bool
  is_a kind c = space.byte l c == cap_vendor && space.byte l ((c + 3) % 2 ^ 8) == kind

  abbrev pub some_is_a : ℕ → List ℕ → Bool
  some_is_a kind [] = false
  some_is_a kind (c ∷ caps) = is_a kind c || some_is_a kind caps

  -- The address that the capability at `c` names, and the one that the last of its kind does.
  abbrev pub address_of : ℕ → ℕ
  address_of c =
      (space.bar l (space.byte l ((c + 4) % 2 ^ 8)) + space.word l ((c + 8) % 2 ^ 8)) % 2 ^ 64

  abbrev pub last_address : ℕ → List ℕ → ℕ → ℕ
  last_address kind [] before = before
  last_address kind (c ∷ caps) before =
      last_address kind caps (if is_a kind c then address_of c else before)

  abbrev pub last_multiplier : List ℕ → ℕ → ℕ
  last_multiplier [] before = before
  last_multiplier (c ∷ caps) before =
      last_multiplier caps (if is_a cap_notify c then space.word l ((c + 16) % 2 ^ 8) else before)

  -- The transport and the marks after the capability at `c`.
  abbrev visited : ℕ → Transport → Transport
  visited c t = record t {
    common_cfg = if is_a cap_common c then address_of c else t.common_cfg;
    notify_base = if is_a cap_notify c then address_of c else t.notify_base;
    notify_off_multiplier =
        if is_a cap_notify c then space.word l ((c + 16) % 2 ^ 8) else t.notify_off_multiplier;
    isr_status = if is_a cap_isr c then address_of c else t.isr_status;
    device_cfg = if is_a cap_device c then address_of c else t.device_cfg;
  }

  abbrev marked : ℕ → Found → Found
  marked c f = record {
    common = is_a cap_common c || f.common;
    notify = is_a cap_notify c || f.notify;
    isr = is_a cap_isr c || f.isr;
  }

  module _ {D : Type 0} (io : Pci D) (reads : ReadsAs io space) where
    visit-visited :
        (d : D) (t : Transport) (f : Found) (c : ℕ)
        → t.location ≡ l
        → visit io c (d, t, f) ≡ (space.byte l ((c + 1) % 2 ^ 8), d, visited c t, marked c f)
    unfolding visit read_capability
    visit-visited d t f c e =
        simp (e, reads.config_read8, reads.config_read32, reads.read_bar) (ground arith)

    -- The transport and the marks after all of the capabilities.
    abbrev all_visited : List ℕ → Transport → Transport
    all_visited [] t = t
    all_visited (c ∷ caps) t = all_visited caps (visited c t)

    abbrev all_marked : List ℕ → Found → Found
    all_marked [] f = f
    all_marked (c ∷ caps) f = all_marked caps (marked c f)

    walk_end : (fuel : ℕ) (s : D × Transport × Found) → walk io (suc fuel) 0 s ≡ some s
    unfolding walk
    walk_end fuel s = refl

    walk_more :
        (fuel c next : ℕ) (d : D) (t t' : Transport) (f f' : Found)
        → c ≢ 0
        → visit io c (d, t, f) ≡ (next, d, t', f')
        → walk io (suc fuel) c (d, t, f) ≡ walk io fuel next (d, t', f')
    unfolding walk
    walk_more fuel c next d t t' f f' ne e = rw (walk, ne→== c 0 ne, e) refl

    walk-all_visited :
        (caps : List ℕ) (fuel first : ℕ) (d : D) (t : Transport) (f : Found)
        → t.location ≡ l
        → CapList caps first
        → length caps < fuel
        → walk io fuel first (d, t, f) ≡ some (d, all_visited caps t, all_marked caps f)
    walk-all_visited caps zero first d t f e u enough = absurd (omega arith)
    walk-all_visited [] (suc fuel) first d t f e u enough = rw u (walk_end fuel (d, t, f))
    walk-all_visited (c ∷ caps) (suc fuel) first d t f e (same, ne, u) enough =
        rw same (
          walk_more fuel c (space.byte l ((c + 1) % 2 ^ 8)) d t (visited c t) f (marked c f) ne
            (visit-visited d t f c e))
        ∙ walk-all_visited caps fuel (space.byte l ((c + 1) % 2 ^ 8)) d (visited c t) (marked c f) e
            u (omega arith)

    all_visited-last :
        (caps : List ℕ) (t : Transport)
        → let t' = all_visited caps t in
          (t'.common_cfg ≡ last_address cap_common caps t.common_cfg)
          × (t'.notify_base ≡ last_address cap_notify caps t.notify_base)
          × (t'.notify_off_multiplier ≡ last_multiplier caps t.notify_off_multiplier)
          × (t'.isr_status ≡ last_address cap_isr caps t.isr_status)
          × (t'.device_cfg ≡ last_address cap_device caps t.device_cfg)
    all_visited-last [] t = (refl, refl, refl, refl, refl)
    all_visited-last (c ∷ caps) t = all_visited-last caps (visited c t)

    all_marked-some :
        (caps : List ℕ) (f : Found)
        → let f' = all_marked caps f in
          (f'.common ≡ (some_is_a cap_common caps || f.common))
          × (f'.notify ≡ (some_is_a cap_notify caps || f.notify))
          × (f'.isr ≡ (some_is_a cap_isr caps || f.isr))
    all_marked-some [] f = (refl, refl, refl)
    all_marked-some (c ∷ caps) f =
        let (a, b, e) = all_marked-some caps (marked c f) in
        (a ∙ ground arith, b ∙ ground arith, e ∙ ground arith)

    found_capabilities :
        (fuel c : ℕ) (d : D) (t t' : Transport) (f : Found)
        → t.location ≡ l
        → space.byte l reg_capabilities ≡ c
        → c ≢ 0
        → walk io fuel c (d, t, record { common = false; notify = false; isr = false })
          ≡ some (d, t', f)
        → find_capabilities io fuel (d, t)
          ≡ some (if f.common && f.notify && f.isr then success else failure, d, t')
    unfolding find_capabilities
    found_capabilities fuel c d t t' f e first ne found =
        let here : space.byte t.location reg_capabilities ≡ c =
          ap (λ place. space.byte place reg_capabilities) e ∙ first in
        let read : io.config_read8 d t.location reg_capabilities ≡ (d, c) =
          reads.config_read8 d t.location reg_capabilities ∙ ap (λ a. (d, a)) here in
        rw (find_capabilities, read, ne→== c 0 ne, found) refl

    -- For a device whose configuration space holds a list of capabilities, the walk over it ends
    -- within any fuel above their number. It succeeds exactly if some capability is the common
    -- configuration, some the notification and some the interrupt status, and the transport has the
    -- address of the last of each kind, the device's configuration included.
    pub find_capabilities_lem :
        (caps : List ℕ) (fuel : ℕ) (d : D) (t : Transport)
        → t.location ≡ l
        → CapList caps (space.byte l reg_capabilities)
        → length caps < fuel
        → (t' : Transport) × (find_capabilities io fuel (d, t)
            ≡ some (
              if some_is_a cap_common caps && some_is_a cap_notify caps && some_is_a cap_isr caps
                  then success
                  else failure,
              d,
              t',
            ))
          × (t'.common_cfg ≡ last_address cap_common caps t.common_cfg)
          × (t'.notify_base ≡ last_address cap_notify caps t.notify_base)
          × (t'.notify_off_multiplier ≡ last_multiplier caps t.notify_off_multiplier)
          × (t'.isr_status ≡ last_address cap_isr caps t.isr_status)
          × (t'.device_cfg ≡ last_address cap_device caps t.device_cfg)
    unfolding find_capabilities
    find_capabilities_lem [] fuel d t e u enough =
        (t, simp (reads.config_read8, e, u) refl, refl, refl, refl, refl, refl)
    find_capabilities_lem (c ∷ caps) fuel d t e u enough =
        let nothing : Found = record { common = false; notify = false; isr = false } in
        let found = walk-all_visited (c ∷ caps) fuel c d t nothing e (refl, u.1, u.2) enough in
        let (common, notify, isr) = all_marked-some (c ∷ caps) nothing in
        let f = all_marked (c ∷ caps) nothing in
        let (p, q, r, s, v) = all_visited-last (c ∷ caps) t in
        let all : (f.common && f.notify && f.isr) ≡ (
            some_is_a cap_common (c ∷ caps)
            && some_is_a cap_notify (c ∷ caps)
            && some_is_a cap_isr (c ∷ caps)) =
          ground (arith, common, notify, isr) in
        (
          all_visited (c ∷ caps) t,
          found_capabilities fuel c d t (all_visited (c ∷ caps) t) f e u.0 u.1 found
              ∙ ap (λ b. some (if b then success else failure, d, all_visited (c ∷ caps) t)) all,
          p,
          q,
          r,
          s,
          v,
        )
