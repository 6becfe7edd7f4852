-- ===== src/Ob/Object/Counts.antt =====
-- The reference counts as a function, and what a reference and a dereference do to it.
use nanokrnl.Base.{
  ℕ, ◌+◌, ◌-◌, ◌%◌, ◌^◌, ◌<◌, ◌≡◌, refl, inl, inr, Option, none, some, ◌==◌, if◌then◌else◌, ◌>>=◌,
  arith, Option-cases, Bool-cases,
}
use nanokrnl.Ob.Object.{
  ObjectHeader, Objects, put, run_hook, drop_last, ob_reference_object, ob_dereference_object,
}

module _ {World : Type 0} where
  abbrev count_of : Option (ObjectHeader World) → ℕ
  count_of none = 0
  count_of (some h) = h.ref_count

  -- The references held on an object; 0 once it is freed.
  abbrev pub count : Objects World → ℕ → ℕ
  count s body = count_of (s.headers body)

  -- An object that lives has a reference, and counts do not come near 2 ^ 64.
  abbrev pub Live : Objects World → Type 0
  Live s = (body : ℕ) (h : ObjectHeader World) → s.headers body ≡ some h → 0 < h.ref_count

  headers-run_hook :
      (f : Option (ℕ → World → World)) (body b : ℕ) (s : Objects World)
      → (run_hook f body s).headers b ≡ s.headers b
  unfolding run_hook
  headers-run_hook none body b s = refl
  headers-run_hook (some f) body b s = refl

  -- `s'` is `s` with the count of `body` changed to `n`, where a count of 0 is a freed object.
  pub record Recounted (s : Objects World) (body n : ℕ) (s' : Objects World) : Type 0 where
    pub counts : (b : ℕ) → count s' b ≡ (if b == body then n else count s b)
    pub live : Live s → Live s'

  -- A reference to a live object adds one to its count and changes no other.
  pub ob_reference_object-Recounted :
      (body : ℕ) (s : Objects World)
      → 0 < count s body
      → count s body < 2 ^ 63
      → (s' : Objects World) × (ob_reference_object body s ≡ some s')
        × Recounted s body (count s body + 1) s'
  unfolding ob_reference_object
  ob_reference_object-Recounted body s pos small = elim (Option-cases (s.headers body)) [
    | inl gone ↦ absurd (ground arith)
    | inr (h, e) ↦ (
      run_hook h.object_type.on_reference body
          (put body (some (record h { ref_count = (h.ref_count + 1) % 2 ^ 64 })) s),
      rw e,
      record {
        counts = λ b. rw headers-run_hook (ground (arith, e));
        live = λ all b h' e'. ground (arith, all b h', rw headers-run_hook at e');
      },
    )
  ]

  abbrev lowered : ℕ → ObjectHeader World → Objects World → Objects World
  lowered body h s =
      put body (some (record h { ref_count = (h.ref_count + 2 ^ 64 - 1) % 2 ^ 64 }))
        (run_hook h.object_type.on_dereference body s)

  -- A dereference of a live object takes one from its count and frees it at 0.
  pub ob_dereference_object-Recounted :
      (body : ℕ) (s : Objects World)
      → 0 < count s body
      → count s body < 2 ^ 63
      → (s' : Objects World) × (ob_dereference_object body s ≡ some s')
        × Recounted s body (count s body - 1) s'
  unfolding ob_dereference_object
  ob_dereference_object-Recounted body s pos small = elim (Option-cases (s.headers body)) [
    | inl gone ↦ absurd (ground arith)
    | inr (h, e) ↦ elim (Bool-cases (h.ref_count == 1)) [
      | inl last ↦ (
        put body none (run_hook h.object_type.delete body (lowered body h s)),
        rw (e, ◌>>=◌, drop_last, last),
        record {
          counts = λ b. rw (headers-run_hook, headers-run_hook) (ground (arith, e));
          live = λ all b h' e'.
              ground (arith, all b h', rw (headers-run_hook, headers-run_hook) at e');
        },
      )
      | inr more ↦ (
        lowered body h s,
        rw (e, ◌>>=◌, drop_last, more),
        record {
          counts = λ b. rw headers-run_hook (ground (arith, e));
          live = λ all b h' e'. ground (arith, all b h', rw headers-run_hook at e');
        },
      )
    ]
  ]
