-- ===== src/Memory/Access.antt =====
-- A value that the interpreter stores and loads again.
use cbc_engine.Prelude.{ℕ, ◌+◌, ◌%◌, ◌^◌, ◌≤◌, ◌<◌, ◌==◌, if◌then◌else◌}
use cbc_engine.Prelude.{Bool, true, not, ◌≡◌, refl, ap, ◌∙◌, ◌⊎◌, arith, Option, none, some}
use mathlib.Core.Option
use cbc_engine.Word.{Width, w8, w16, w32, w64, uget, sget, to_signed, to_unsigned}
use cbc_engine.Location.{
  LoadAccessKind, ld_u8, ld_u16, ld_32, ld_64, ld_s8, ld_s16, ld_s32to64, ld_f32, ld_f64,
}
use cbc_engine.Memory.{
  State, StoreAccessKind, st_8, st_16, st_32, st_64, st_f32, st_f64, st_ref, special,
}
use cbc_engine.Memory.{store_prim, load_prim, sign_extended}
use cbc_engine.Memory.{write_bytes, read_bytes}
use cbc_engine.Memory.Bytes.{read_bytes-write_bytes, write_bytes-outside}

-- The sizes in bytes.
abbrev pub store_size : StoreAccessKind → ℕ
store_size st_8 = 1
store_size st_16 = 2
store_size st_32 = 4
store_size st_f32 = 4
store_size _ = 8

-- What a load delivers of the value `v` that was stored at its own size.
abbrev pub loaded : LoadAccessKind → ℕ → Option ℕ
loaded ld_u8 v = some (uget w8 v)
loaded ld_u16 v = some (uget w16 v)
loaded ld_32 v = some (uget w32 v)
loaded ld_64 v = some (uget w64 v)
loaded ld_s8 v = some (sign_extended w8 v)
loaded ld_s16 v = some (sign_extended w16 v)
loaded ld_s32to64 v = some (sign_extended w32 v)
loaded ld_f32 v = some (uget w32 v)
loaded ld_f64 v = some (uget w64 v)
loaded _ v = none

abbrev pub source_of : StoreAccessKind → ℕ → State → ℕ
source_of st_f32 src s = s.freg src
source_of st_f64 src s = s.freg src
source_of _ src s = s.ireg src

abbrev pub target_of : LoadAccessKind → ℕ → State → ℕ
target_of ld_f32 dst s = s.freg dst
target_of ld_f64 dst s = s.freg dst
target_of _ dst s = s.ireg dst

-- The registers that a load can write: IRZ is no target.
abbrev pub writable : LoadAccessKind → ℕ → Bool
writable ld_f32 dst = true
writable ld_f64 dst = true
writable _ dst = not (dst == 0)

-- The loads that read back what a store wrote.
pub data Matches : StoreAccessKind → LoadAccessKind → Type 0 where
  u8 : Matches st_8 ld_u8
  s8 : Matches st_8 ld_s8
  u16 : Matches st_16 ld_u16
  s16 : Matches st_16 ld_s16
  u32 : Matches st_32 ld_32
  s32 : Matches st_32 ld_s32to64
  u64 : Matches st_64 ld_64
  f32 : Matches st_f32 ld_f32
  f64 : Matches st_f64 ld_f64

-- A sign extension looks at the low bits only.
extended-cut : (w : Width) (v : ℕ) → sign_extended w (uget w v) ≡ sign_extended w v
unfolding sget uget
extended-cut w8 v = ap (λ (t : ℕ). to_unsigned w64 (to_signed w8 t)) (omega arith)
extended-cut w16 v = ap (λ (t : ℕ). to_unsigned w64 (to_signed w16 t)) (omega arith)
extended-cut w32 v = ap (λ (t : ℕ). to_unsigned w64 (to_signed w32 t)) (omega arith)
extended-cut w64 v = ap (λ (t : ℕ). to_unsigned w64 (to_signed w64 t)) (omega arith)

found : (f : ℕ → ℕ) (r v : ℕ) → (if r == r then v else f r) ≡ v
found f r v = ground arith

-- The register after a load from where `v` was stored at the same size.
arrives :
    (f : ℕ → ℕ) (n address dst v : ℕ) (m : ℕ → ℕ)
    → (if dst == dst then read_bytes n address (write_bytes n address v m) else f dst) ≡ v % 256 ^ n
arrives f n address dst v m = found f dst _ ∙ read_bytes-write_bytes n address v m

extends :
    (f : ℕ → ℕ) (w : Width) (n address dst v : ℕ) (m : ℕ → ℕ)
    → v % 256 ^ n ≡ uget w v
    → (if dst == dst
        then sign_extended w (read_bytes n address (write_bytes n address v m))
        else f dst)
      ≡ sign_extended w v
extends f w n address dst v m e =
    found f dst _
    ∙ ap (sign_extended w) (read_bytes-write_bytes n address v m ∙ e)
    ∙ extended-cut w v

written_ireg :
    (dst : ℕ) (t : State) → not (dst == 0) ≡ true → (if dst == 0 then none else some t) ≡ some t
written_ireg dst t h = ground arith

-- A primitive that is stored and loaded by a kind of the same size arrives with its low bits, zero-
-- or sign-extended; both accesses are defined, where the load is not to the integer register IRZ.
pub load_prim-store_prim :
    (derived : ℕ → ℕ) (st : StoreAccessKind) (ld : LoadAccessKind) (global : Bool)
    (address src dst : ℕ) (s : State)
    → Matches st ld
    → writable ld dst ≡ true
    → (t : State) × (u : State) × (store_prim st address src s ≡ some t)
      × (load_prim derived ld global address dst t ≡ some u)
      × (some (target_of ld dst u) ≡ loaded ld (source_of st src s))
unfolding store_prim load_prim uget
load_prim-store_prim derived _ _ global address src dst s u8 h =
    (_, _, refl, written_ireg dst _ h, ap some (arrives s.ireg 1 address dst (s.ireg src) s.memory))
load_prim-store_prim derived _ _ global address src dst s u16 h =
    (_, _, refl, written_ireg dst _ h, ap some (arrives s.ireg 2 address dst (s.ireg src) s.memory))
load_prim-store_prim derived _ _ global address src dst s u32 h =
    (_, _, refl, written_ireg dst _ h, ap some (arrives s.ireg 4 address dst (s.ireg src) s.memory))
load_prim-store_prim derived _ _ global address src dst s u64 h =
    (_, _, refl, written_ireg dst _ h, ap some (arrives s.ireg 8 address dst (s.ireg src) s.memory))
load_prim-store_prim derived _ _ global address src dst s f32 h =
    (_, _, refl, refl, ap some (arrives s.freg 4 address dst (s.freg src) s.memory))
load_prim-store_prim derived _ _ global address src dst s f64 h =
    (_, _, refl, refl, ap some (arrives s.freg 8 address dst (s.freg src) s.memory))
load_prim-store_prim derived _ _ global address src dst s s8 h = (
  _,
  _,
  refl,
  written_ireg dst _ h,
  ap some (extends s.ireg w8 1 address dst (s.ireg src) s.memory refl),
)
load_prim-store_prim derived _ _ global address src dst s s16 h = (
  _,
  _,
  refl,
  written_ireg dst _ h,
  ap some (extends s.ireg w16 2 address dst (s.ireg src) s.memory refl),
)
load_prim-store_prim derived _ _ global address src dst s s32 h = (
  _,
  _,
  refl,
  written_ireg dst _ h,
  ap some (extends s.ireg w32 4 address dst (s.ireg src) s.memory refl),
)

-- A store keeps every byte outside its own size.
pub store_prim-outside :
    (st : StoreAccessKind) (address src : ℕ) (s : State) (i : ℕ)
    → (i < address) ⊎ (address + store_size st ≤ i)
    → Option.map (λ t. t.memory i) (store_prim st address src s)
      ≡ Option.map (λ t. s.memory i) (store_prim st address src s)
unfolding store_prim
store_prim-outside st_8 address src s i h =
    ap some (write_bytes-outside 1 address (s.ireg src) s.memory i h)
store_prim-outside st_16 address src s i h =
    ap some (write_bytes-outside 2 address (s.ireg src) s.memory i h)
store_prim-outside st_32 address src s i h =
    ap some (write_bytes-outside 4 address (s.ireg src) s.memory i h)
store_prim-outside st_64 address src s i h =
    ap some (write_bytes-outside 8 address (s.ireg src) s.memory i h)
store_prim-outside st_f32 address src s i h =
    ap some (write_bytes-outside 4 address (s.freg src) s.memory i h)
store_prim-outside st_f64 address src s i h =
    ap some (write_bytes-outside 8 address (s.freg src) s.memory i h)
store_prim-outside st_ref address src s i h = refl
store_prim-outside special address src s i h = refl
