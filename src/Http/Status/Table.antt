-- ===== src/Http/Status/Table.antt =====
-- The table of reason phrases covers the enum and nothing else.
use httpserv.Prelude.{
  ℕ, ◌≤◌, ◌≡◌, sym, ◌↔◌, refl, true, some, List, [], ◌∷◌, arith, ==_iff, ◌==◌, Bytes, codes, All,
  String, Bool-cases, inl, inr,
}
use mathlib.Core.Path.{subst₂}
use httpserv.Http.Status.{Status, to_int, cases, switch, strstatus, status_valid}

-- What a reason phrase consists of: no control characters, so no CR and no LF.
abbrev pub IsPrintable : Bytes → Type 0
IsPrintable = All λ c. (32 ≤ c) × (c ≤ 126)

-- What holds of every case of a switch holds of the case that is taken.
switch_elim :
    (P : ℕ → Bytes → Type 0) (l : List (ℕ × String)) (n : ℕ) {text : Bytes}
    → All (λ c. P c.0 (codes c.1)) l
    → switch l n ≡ some text
    → P n text
unfolding switch
switch_elim P [] n h e = cc
switch_elim P ((k, t) ∷ l) n {text} h e = elim (Bool-cases (n == k)) [
  | inl hit ↦
      let same : some (codes t) ≡ some text = rw hit at e in
      let e' : codes t ≡ text = cc in subst₂ P (sym ((==_iff n k).0 hit)) e' h.0
  | inr miss ↦ switch_elim P l n h.1 (rw miss at e)
]

valid-to_int : (s : Status) → status_valid (to_int s) ≡ true
unfolding status_valid to_int
valid-to_int Status.ok = refl
valid-to_int _ = refl

covered : All (λ c. (s : Status) × (to_int s ≡ c.0)) cases
unfolding to_int
covered = (
  (Status.continue, refl),
  (
    (Status.switching_protocols, refl),
    (
      (Status.ok, refl),
      (
        (Status.created, refl),
        (
          (Status.accepted, refl),
          (
            (Status.non_authoritative_information, refl),
            (
              (Status.no_content, refl),
              (
                (Status.reset_content, refl),
                (
                  (Status.partial_content, refl),
                  (
                    (Status.multiple_choices, refl),
                    (
                      (Status.moved_permanently, refl),
                      (
                        (Status.found, refl),
                        (
                          (Status.see_other, refl),
                          (
                            (Status.not_modified, refl),
                            (
                              (Status.temporary_redirect, refl),
                              (
                                (Status.permanent_redirect, refl),
                                (
                                  (Status.bad_request, refl),
                                  (
                                    (Status.unauthorized, refl),
                                    (
                                      (Status.forbidden, refl),
                                      (
                                        (Status.not_found, refl),
                                        (
                                          (Status.method_not_allowed, refl),
                                          (
                                            (Status.not_acceptable, refl),
                                            (
                                              (Status.proxy_authentication_required, refl),
                                              (
                                                (Status.request_timeout, refl),
                                                (
                                                  (Status.conflict, refl),
                                                  (
                                                    (Status.gone, refl),
                                                    (
                                                      (Status.lenght_required, refl),
                                                      (
                                                        (Status.precondition_failed, refl),
                                                        (
                                                          (Status.payload_too_large, refl),
                                                          (
                                                            (Status.uri_too_long, refl),
                                                            (
                                                            (Status.unsupported_media_type, refl),
                                                            (
                                                            (Status.range_not_satisfiable, refl),
                                                            (
                                                            (Status.expectation_failed, refl),
                                                            (
                                                            (Status.im_a_teapot, refl),
                                                            (
                                                            (Status.upgrade_required, refl),
                                                            (
                                                            (Status.precondition_required, refl),
                                                            (
                                                            (Status.too_many_requests, refl),
                                                            (
                                                            (
                                                            Status.request_header_fields_too_large,
                                                            refl,
                                                            ),
                                                            (
                                                            (
                                                            Status.unavailable_for_legal_reasons,
                                                            refl,
                                                            ),
                                                            (
                                                            (Status.internal_server_error, refl),
                                                            (
                                                            (Status.not_implemented, refl),
                                                            (
                                                            (Status.bad_gateway, refl),
                                                            (
                                                            (Status.service_unavailable, refl),
                                                            (
                                                            (Status.gateway_timeout, refl),
                                                            (
                                                            (
                                                            Status.http_version_not_supported, refl,
                                                            ),
                                                            (
                                                            (Status.variant_also_negotiates, refl),
                                                            (
                                                            (Status.not_extended, refl),
                                                            (
                                                            (
                                                            Status.network_authentication_required,
                                                            refl,
                                                            ),
                                                            tt,
                                                            ),
                                                            ),
                                                            ),
                                                            ),
                                                            ),
                                                            ),
                                                            ),
                                                            ),
                                                            ),
                                                            ),
                                                            ),
                                                            ),
                                                            ),
                                                            ),
                                                            ),
                                                            ),
                                                            ),
                                                            ),
                                                          ),
                                                        ),
                                                      ),
                                                    ),
                                                  ),
                                                ),
                                              ),
                                            ),
                                          ),
                                        ),
                                      ),
                                    ),
                                  ),
                                ),
                              ),
                            ),
                          ),
                        ),
                      ),
                    ),
                  ),
                ),
              ),
            ),
          ),
        ),
      ),
    ),
  ),
)

well_formed : All (λ c. (100 ≤ c.0) × (c.0 ≤ 999) × IsPrintable (codes c.1)) cases
well_formed = omega arith

valid-strstatus : (n : ℕ) → status_valid n ≡ true → (text : Bytes) × (strstatus n ≡ some text)
unfolding status_valid
valid-strstatus n h = ground arith

-- A number has a reason phrase exactly when it is the value of a constant of the enum.
pub status_valid_iff : (n : ℕ) → (status_valid n ≡ true) ↔ ((s : Status) × (to_int s ≡ n))
unfolding strstatus
status_valid_iff n = (
  λ h.
      let (text, e) = valid-strstatus n h in
      switch_elim (λ k _. (s : Status) × (to_int s ≡ k)) cases n {text = text} covered e,
  λ (s, e). rw (← e) (valid-to_int s),
)

-- A status with a reason phrase has three digits, and its phrase is printable ASCII.
pub strstatus_well_formed :
    (n : ℕ) {text : Bytes} → strstatus n ≡ some text → (100 ≤ n) × (n ≤ 999) × IsPrintable text
unfolding strstatus
strstatus_well_formed n e =
    switch_elim (λ k t. (100 ≤ k) × (k ≤ 999) × IsPrintable t) cases n well_formed e
