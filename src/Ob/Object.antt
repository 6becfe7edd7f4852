-- ===== src/Ob/Object.antt =====
-- kernel/src/ob/mod.rs: objects with a reference count and a type. Objects are named by the address
-- of their body. `World` is whatever the procedures of a type change: the writer count of a pipe,
-- for one. A call returns `none` where the code would touch an object that has been freed.
pub mod Counts
use nanokrnl.Base.{
  ℕ, ◌+◌, ◌-◌, ◌%◌, ◌^◌, Bool, true, false, Option, none, some, ◌==◌, if◌then◌else◌, ◌>>=◌,
}

pub record ObjectType (World : Type 0) : Type 0 where
  pub name : ℕ
  pub delete : Option (ℕ → World → World)
  pub on_reference : Option (ℕ → World → World)
  pub on_dereference : Option (ℕ → World → World)

pub record ObjectHeader (World : Type 0) : Type 0 where
  pub ref_count : ℕ
  pub object_type : ObjectType World
  pub total_size : ℕ

pub record Objects (World : Type 0) : Type 0 where
  pub headers : ℕ → Option (ObjectHeader World)
  pub world : World

pub data Status : Type 0 where
  success invalid_handle object_type_mismatch insufficient_resources : Status

-- `size_of::<ObjectHeader>()`
abbrev pub header_size : ℕ
header_size = 24

module _ {World : Type 0} where
  abbrev pub put : ℕ → Option (ObjectHeader World) → Objects World → Objects World
  put body h s = record s { headers = λ b. if b == body then h else s.headers b }

  -- `if let Some(f) = hook { f(body) }`
  pub run_hook : Option (ℕ → World → World) → ℕ → Objects World → Objects World
  run_hook none body s = s
  run_hook (some f) body s = record s { world = f body s.world }

  -- `fresh` is what the pool returns for header and body.
  unfoldable pub ob_create_object :
      (fresh : Option ℕ)
      → ObjectType World
      → (body_size : ℕ) → Objects World
      → Objects World × Option ℕ
  ob_create_object none type body_size s = (s, none)
  ob_create_object (some raw) type body_size s = (
    put (raw + header_size)
        (some (record {
          ref_count = 1;
          object_type = type;
          total_size = (header_size + body_size) % 2 ^ 32;
        }))
        s,
    some (raw + header_size),
  )

  unfoldable pub ob_reference_object : ℕ → Objects World → Option (Objects World)
  unfolding run_hook
  ob_reference_object body s = s.headers body >>= λ h. some (
      run_hook h.object_type.on_reference body
        (put body (some (record h { ref_count = (h.ref_count + 1) % 2 ^ 64 })) s))

  -- The end of `ob_dereference_object`, after the count went down from `prev`.
  pub drop_last : (prev : ℕ) → ℕ → ObjectHeader World → Objects World → Objects World
  unfolding run_hook
  drop_last prev body h s =
      if prev == 1 then put body none (run_hook h.object_type.delete body s) else s

  unfoldable pub ob_dereference_object : ℕ → Objects World → Option (Objects World)
  unfolding drop_last
  ob_dereference_object body s = s.headers body >>= λ h. some (
      drop_last h.ref_count body h (
        put body (some (record h { ref_count = (h.ref_count + 2 ^ 64 - 1) % 2 ^ 64 }))
          (run_hook h.object_type.on_dereference body s)))

  -- Object types are compared by address, here by name.
  pub ob_check_type : ℕ → ObjectType World → Objects World → Option Status
  ob_check_type body expected s = s.headers body >>= λ h.
      some (if h.object_type.name == expected.name then success else object_type_mismatch)

  pub ob_ref_count : ℕ → Objects World → Option ℕ
  ob_ref_count body s = s.headers body >>= λ h. some h.ref_count
