-- ===== src/Startup/Equal.antt =====
-- src/config.rs, the derived `==` of `RuntimeConfig`: it is equality.
use mini_lmk.Base.{
  ℕ, Bool, true, false, ◌&&◌, ◌==◌, ◌≡◌, ◌≢◌, ◌∙◌, refl, sym, ap, arith, ℤ, pos, negsuc, eqb_ℤ,
}
use mini_lmk.Config.{RuntimeConfig}
use mini_lmk.Startup.Reload.{eqb, eqb_config}

eqb_sound : (a b : Bool) → eqb a b ≡ true → a ≡ b
eqb_sound true b h = sym h
eqb_sound false true h = h
eqb_sound false false h = refl

eqb_refl : (a : Bool) → eqb a a ≡ true
eqb_refl true = refl
eqb_refl false = refl

eqb_ℤ_sound : (a b : ℤ) → eqb_ℤ a b ≡ true → a ≡ b
eqb_ℤ_sound (pos x) (pos y) h = ap pos (ground (arith, h))
eqb_ℤ_sound (pos x) (negsuc y) h = absurd (ground (arith, h))
eqb_ℤ_sound (negsuc x) (pos y) h = absurd (ground (arith, h))
eqb_ℤ_sound (negsuc x) (negsuc y) h = ap negsuc (ground (arith, h))

eqb_config_refl : (a : RuntimeConfig) → eqb_config a a ≡ true
eqb_config_refl a =
    let h = eqb_refl a.screen_off_harvest in let l = eqb_refl a.log_enabled in ground (arith, h, l)

-- Field by field.
record Agree (a b : RuntimeConfig) : Type 0 where
  idle : (a.t_idle_sec == b.t_idle_sec) ≡ true
  depth : (a.lru_protect_depth == b.lru_protect_depth) ≡ true
  mem : (a.mem_critical_percent == b.mem_critical_percent) ≡ true
  max : (a.fg_lru_max_depth == b.fg_lru_max_depth) ≡ true
  harvest : eqb a.screen_off_harvest b.screen_off_harvest ≡ true
  kills : (a.max_kills_per_pass == b.max_kills_per_pass) ≡ true
  adj : eqb_ℤ a.min_oom_score_adj b.min_oom_score_adj ≡ true
  log : eqb a.log_enabled b.log_enabled ≡ true

and_true : (x y : Bool) → (x && y) ≡ true → (x ≡ true) × (y ≡ true)
and_true true y h = (refl, h)
and_true false y h = absurd (ground (arith, h))

eqb_config-Agree : (a b : RuntimeConfig) → eqb_config a b ≡ true → Agree a b
eqb_config-Agree a b h =
    let (k7, h8) = and_true _ _ h in
    let (k6, h7) = and_true _ _ k7 in
    let (k5, h6) = and_true _ _ k6 in
    let (k4, h5) = and_true _ _ k5 in
    let (k3, h4) = and_true _ _ k4 in
    let (k2, h3) = and_true _ _ k3 in
    let (h1, h2) = and_true _ _ k2 in
    record {
      idle = h1;
      depth = h2;
      mem = h3;
      max = h4;
      harvest = h5;
      kills = h6;
      adj = h7;
      log = h8;
    }

same_number : (x y : ℕ) → (x == y) ≡ true → x ≡ y
same_number x y h = ground (arith, h)

pub eqb_config_sound : (a b : RuntimeConfig) → eqb_config a b ≡ true → a ≡ b
eqb_config_sound a b h =
    let g = eqb_config-Agree a b h in
    let p1 = same_number a.t_idle_sec b.t_idle_sec g.idle in
    let p2 = same_number a.lru_protect_depth b.lru_protect_depth g.depth in
    let p3 = same_number a.mem_critical_percent b.mem_critical_percent g.mem in
    let p4 = same_number a.fg_lru_max_depth b.fg_lru_max_depth g.max in
    let p5 = eqb_sound a.screen_off_harvest b.screen_off_harvest g.harvest in
    let p6 = same_number a.max_kills_per_pass b.max_kills_per_pass g.kills in
    let p7 = eqb_ℤ_sound a.min_oom_score_adj b.min_oom_score_adj g.adj in
    let p8 = eqb_sound a.log_enabled b.log_enabled g.log in
    λ i. record {
      t_idle_sec = p1 i;
      lru_protect_depth = p2 i;
      mem_critical_percent = p3 i;
      fg_lru_max_depth = p4 i;
      screen_off_harvest = p5 i;
      max_kills_per_pass = p6 i;
      min_oom_score_adj = p7 i;
      log_enabled = p8 i;
    }

true-false : true ≢ false
true-false h = absurd (ground (arith, h))

pub eqb_config_differ : (a b : RuntimeConfig) → eqb_config a b ≡ false → a ≢ b
eqb_config_differ a b h e =
    let same = ap (λ x. eqb_config a x) e in
    let r = eqb_config_refl a in true-false (sym r ∙ same ∙ h)
