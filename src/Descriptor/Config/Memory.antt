-- ===== src/Descriptor/Config/Memory.antt =====
-- `raw_desc_to_config` and `libusb_free_config_descriptor` of libusb/libusb/descriptor.c: what is
-- allocated by the one is freed by the other.
use zerousb.Prelude.{
  ℕ, suc, ◌+◌, ◌≤◌, ◌≡◌, refl, true, some, List, [], ◌∷◌, ret, arith, ltb, length, take, Returns,
  Bool-cases, inl, inr, Guarded, Guarded-bind, Returns-Guarded, All, get_or,
}
use zerousb.Usb.{Result, ok, err, max_interfaces}
use zerousb.Descriptor.Format.{Endian, Writes, parse_descriptor, field_at}
use zerousb.Descriptor.Cursor.{Cursor, IsValid, advance-IsValid, advance}
use zerousb.Descriptor.Heap.{Grants, Heap, free, block}
use zerousb.Descriptor.Interface.Setting.{Interface}
use zerousb.Descriptor.Interface.Ownership.{Refuses}
use zerousb.Descriptor.Config.{
  Config, clear_configuration, config_format, store_config, config_is_good, LoopResult,
  ConfigResult, finish_configuration, parse_configuration, raw_result, raw_desc_to_config,
  free_config_descriptor,
}
use zerousb.Descriptor.Config.Ownership.{
  IsClear, freed_interfaces, LoopPost, All-take, clear_interfaces-freed, parse_interfaces-Guarded,
}

-- bNumInterfaces as the device reports it.
abbrev pub declared : Cursor → ℕ
declared c = get_or c.buffer 4 0

parse_config_lem :
    (sp : List ℕ) (e : Endian)
    → 9 ≤ length sp
    → (ws : Writes) × (parse_descriptor config_format sp 0 e ≡ ret (ws, 9))
      × (field_at ws 4 0 ≡ get_or sp 4 0)
unfolding parse_descriptor
parse_config_lem (x0 ∷ x1 ∷ x2 ∷ x3 ∷ x4 ∷ x5 ∷ x6 ∷ x7 ∷ x8 ∷ sp) e h = (_, refl, refl)
parse_config_lem sp e h = absurd (omega arith)

-- A configuration that can be freed, and what freeing it leaves of `live` blocks.
abbrev Frees : ℕ → Config → Heap → Type 0
Frees live config h = (h' : Heap) × (clear_configuration config h ≡ ret h') × (h'.live ≡ live)

clear_configuration-Frees :
    (config : Config) (usbs : List Interface) (extra : List ℕ) (h : Heap) (live : ℕ)
    → All IsClear usbs
    → h.live ≡ live + block extra + freed_interfaces (take config.b_num_interfaces usbs) + 1
    → Frees live (record config { interfaces = some usbs; extra = extra }) h
unfolding clear_configuration
clear_configuration-Frees config usbs extra h live z o =
    let (h', p, q) =
      clear_interfaces-freed (take config.b_num_interfaces usbs) h (All-take _ usbs z) in
    (free (block extra) (free 1 h'), rw p refl, omega arith)

-- On an error nothing that was allocated is left. On success at most one block is lost, and none if
-- all of the `n` declared interfaces were parsed.
abbrev ConfigPost : ℕ → ℕ → ℕ → ConfigResult → Type 0
ConfigPost n live total (err x, config, h) = h.live ≡ live
ConfigPost n live total (ok left, config, h) =
    (left ≤ total)
    × (config.b_num_interfaces ≤ n)
    × (n ≤ max_interfaces)
    × ((lost : ℕ) × Frees (live + lost) config h
        × (lost ≤ 1)
        × (config.b_num_interfaces ≡ n → lost ≡ 0))

finish_configuration-Returns :
    (config : Config) (r : LoopResult) (live total : ℕ)
    → config.b_num_interfaces ≤ max_interfaces
    → LoopPost config.b_num_interfaces (live + 1) total r
    → Returns (finish_configuration config r) (ConfigPost config.b_num_interfaces live total)
unfolding finish_configuration
finish_configuration-Returns config (err x, extra, usbs, h) live total m p =
    let (h', q, s) = clear_configuration-Frees config usbs extra h live p.0 (omega arith) in rw q s
finish_configuration-Returns config (ok (i, left), extra, usbs, h) live total m
      (z, l, k, (lost, o, s, w)) =
    (
      k,
      l,
      m,
      (
        lost,
        clear_configuration-Frees (record config { b_num_interfaces = i }) usbs extra h
            (live + lost) z (omega arith),
        s,
        w,
      ),
    )

config_is_good-inv :
    (config : Config) (size : ℕ)
    → config_is_good config size ≡ true
    → (9 ≤ config.b_length) × (config.b_length ≤ size) × (config.b_num_interfaces ≤ max_interfaces)
config_is_good-inv config size h = ground arith

-- On any bytes and any allocator `parse_configuration` returns, or else reads freed memory after a
-- refused allocation.
parse_configuration-Guarded :
    (g : Grants) (c : Cursor) (e : Endian) (h : Heap)
    → IsValid c
    → Guarded (Refuses g) (parse_configuration g c e h) (ConfigPost (declared c) h.live c.size)
unfolding parse_configuration
parse_configuration-Guarded g c e h v = elim (Bool-cases (ltb c.size 9)) [
  | inl p ↦ rw p refl
  | inr p ↦
      let (ws, q, n) = parse_config_lem c.buffer e (ground arith) in
      let config = store_config ws in
      rw (p, q)
        (elim (Bool-cases (config_is_good config c.size)) [
          | inr r ↦ rw r refl
          | inl r ↦
              let (y, z, m) = config_is_good-inv config c.size r in
              rw (r, ← n)
                (elim (Bool-cases (g h.calls)) [
                  | inr t ↦ rw t refl
                  | inl t ↦ rw t (
                      Guarded-bind (Refuses g) _
                        (LoopPost config.b_num_interfaces (h.live + 1) c.size) _ _
                        (parse_interfaces-Guarded g config.b_num_interfaces []
                          (advance config.b_length c) e
                          (record { calls = suc h.calls; live = suc h.live }) (h.live + 1) c.size
                          (advance-IsValid config.b_length c v) (omega arith) (omega arith))
                        (λ l w.
                          Returns-Guarded (Refuses g) (finish_configuration config l)
                            (ConfigPost config.b_num_interfaces h.live c.size)
                            (finish_configuration-Returns config l h.live c.size m w)))
                ])
        ])
]

-- What `raw_desc_to_config` leaves: on an error no block; on success a configuration of at most the
-- declared interfaces, which `libusb_free_config_descriptor` can free, and after which no block is
-- left if all the declared interfaces were parsed, and at most one if not.
abbrev pub RawPost : ℕ → ℕ → Result Config × Heap → Type 0
RawPost n live (err x, h) = h.live ≡ live
RawPost n live (ok config, h) =
    (config.b_num_interfaces ≤ n)
    × (n ≤ max_interfaces)
    × ((h' : Heap) × (lost : ℕ) × (free_config_descriptor (some config) h ≡ ret h')
        × (h'.live ≡ live + lost)
        × (lost ≤ 1)
        × (config.b_num_interfaces ≡ n → lost ≡ 0))

raw_Post :
    (n live total : ℕ) (r : ConfigResult)
    → ConfigPost n (suc live) total r
    → RawPost n live (raw_result r)
unfolding free_config_descriptor
raw_Post n live total (err x, config, h) p = omega arith
raw_Post n live total (ok left, config, h) (k, l, m, (lost, (h', q, o), s, w)) =
    (l, m, (free 1 h', lost, rw q refl, omega arith, s, w))

-- Take any bytes (of at least the size) and any allocator. `raw_desc_to_config` ends, and reads
-- nothing past the size; it reads freed memory only if some allocation is refused. On an error the
-- blocks are those before. On success freeing the configuration leaves the blocks before, and one
-- more at the most, which is not there if all the declared interfaces were parsed.
pub raw_desc_to_config-Guarded :
    (g : Grants) (c : Cursor) (e : Endian) (h : Heap)
    → IsValid c
    → Guarded (Refuses g) (raw_desc_to_config g c e h) (RawPost (declared c) h.live)
unfolding raw_desc_to_config
raw_desc_to_config-Guarded g c e h v = elim (Bool-cases (g h.calls)) [
  | inr p ↦ rw p refl
  | inl p ↦ rw p (
      Guarded-bind (Refuses g)
        (parse_configuration g c e (record { calls = suc h.calls; live = suc h.live }))
        (ConfigPost (declared c) (suc h.live) c.size) _ _ (parse_configuration-Guarded g c e _ v)
        (λ r w. raw_Post (declared c) h.live c.size r w))
]
