-- ===== src/Cluster/Config/RoundTrip.antt =====
-- The map of a configuration's fields, set on any other configuration, gives the configuration.
use undermoon.Prelude.{
  ℕ, ◌≤◌, ◌<◌, ◌≡◌, ◌⊎◌, inl, inr, refl, false, ◌==◌, arith, word_mod, text_eq, All, ok,
}
use undermoon.Cluster.{Text, CompressionStrategy, ClusterConfig}
use undermoon.Cluster.Strings.RoundTrip.{parse_number-to_decimal}
use undermoon.Resp.Decimal.{to_decimal}
use undermoon.Cluster.Config.{
  ConfigError, compression_strategy_text, disabled_text, set_get_only_text, allow_all_text,
  max_migration_time_text, max_blocking_time_text, scan_interval_text, scan_count_text,
  migration_max_migration_time_text, migration_max_blocking_time_text, migration_scan_interval_text,
  migration_scan_count_text, strategy_to_str, starts_with, behind_underscore, with_strategy,
  with_migration, set_migration_field, set_lower_field, set_field, set_fields, to_str_map,
}

-- A text of ASCII small letters and underscores is its own lower case.
abbrev pub IsSmall : ℕ → Type 0
IsSmall b = ((97 ≤ b) × (b ≤ 122)) ⊎ (b ≡ 95)

pub record IsLowerCase (to_lowercase : Text → Text) : Type 0 where
  pub small : (t : Text) → All IsSmall t → to_lowercase t ≡ t

-- The numbers are u64, and the count is not zero.
pub record IsValidConfig (config : ClusterConfig) : Type 0 where
  pub migration_time : config.migration_config.max_migration_time < word_mod
  pub blocking_time : config.migration_config.max_blocking_time < word_mod
  pub interval : config.migration_config.scan_interval < word_mod
  pub count : config.migration_config.scan_count < word_mod
  pub some_count : 0 < config.migration_config.scan_count

compression_strategy-IsSmall : All IsSmall compression_strategy_text
compression_strategy-IsSmall = (
  inl (omega arith, omega arith),
  (
    inl (omega arith, omega arith),
    (
      inl (omega arith, omega arith),
      (
        inl (omega arith, omega arith),
        (
          inl (omega arith, omega arith),
          (
            inl (omega arith, omega arith),
            (
              inl (omega arith, omega arith),
              (
                inl (omega arith, omega arith),
                (
                  inl (omega arith, omega arith),
                  (
                    inl (omega arith, omega arith),
                    (
                      inl (omega arith, omega arith),
                      (
                        inr refl,
                        (
                          inl (omega arith, omega arith),
                          (
                            inl (omega arith, omega arith),
                            (
                              inl (omega arith, omega arith),
                              (
                                inl (omega arith, omega arith),
                                (
                                  inl (omega arith, omega arith),
                                  (
                                    inl (omega arith, omega arith),
                                    (
                                      inl (omega arith, omega arith),
                                      (inl (omega arith, omega arith), tt),
                                    ),
                                  ),
                                ),
                              ),
                            ),
                          ),
                        ),
                      ),
                    ),
                  ),
                ),
              ),
            ),
          ),
        ),
      ),
    ),
  ),
)

disabled-IsSmall : All IsSmall disabled_text
disabled-IsSmall = (
  inl (omega arith, omega arith),
  (
    inl (omega arith, omega arith),
    (
      inl (omega arith, omega arith),
      (
        inl (omega arith, omega arith),
        (
          inl (omega arith, omega arith),
          (
            inl (omega arith, omega arith),
            (inl (omega arith, omega arith), (inl (omega arith, omega arith), tt)),
          ),
        ),
      ),
    ),
  ),
)

set_get_only-IsSmall : All IsSmall set_get_only_text
set_get_only-IsSmall = (
  inl (omega arith, omega arith),
  (
    inl (omega arith, omega arith),
    (
      inl (omega arith, omega arith),
      (
        inr refl,
        (
          inl (omega arith, omega arith),
          (
            inl (omega arith, omega arith),
            (
              inl (omega arith, omega arith),
              (
                inr refl,
                (
                  inl (omega arith, omega arith),
                  (
                    inl (omega arith, omega arith),
                    (inl (omega arith, omega arith), (inl (omega arith, omega arith), tt)),
                  ),
                ),
              ),
            ),
          ),
        ),
      ),
    ),
  ),
)

strategies-IsSmall : All IsSmall allow_all_text
strategies-IsSmall = (
  inl (omega arith, omega arith),
  (
    inl (omega arith, omega arith),
    (
      inl (omega arith, omega arith),
      (
        inl (omega arith, omega arith),
        (
          inl (omega arith, omega arith),
          (
            inr refl,
            (
              inl (omega arith, omega arith),
              (inl (omega arith, omega arith), (inl (omega arith, omega arith), tt)),
            ),
          ),
        ),
      ),
    ),
  ),
)

max_migration_time-IsSmall : All IsSmall max_migration_time_text
max_migration_time-IsSmall = (
  inl (omega arith, omega arith),
  (
    inl (omega arith, omega arith),
    (
      inl (omega arith, omega arith),
      (
        inr refl,
        (
          inl (omega arith, omega arith),
          (
            inl (omega arith, omega arith),
            (
              inl (omega arith, omega arith),
              (
                inl (omega arith, omega arith),
                (
                  inl (omega arith, omega arith),
                  (
                    inl (omega arith, omega arith),
                    (
                      inl (omega arith, omega arith),
                      (
                        inl (omega arith, omega arith),
                        (
                          inl (omega arith, omega arith),
                          (
                            inr refl,
                            (
                              inl (omega arith, omega arith),
                              (
                                inl (omega arith, omega arith),
                                (
                                  inl (omega arith, omega arith),
                                  (inl (omega arith, omega arith), tt),
                                ),
                              ),
                            ),
                          ),
                        ),
                      ),
                    ),
                  ),
                ),
              ),
            ),
          ),
        ),
      ),
    ),
  ),
)

max_blocking_time-IsSmall : All IsSmall max_blocking_time_text
max_blocking_time-IsSmall = (
  inl (omega arith, omega arith),
  (
    inl (omega arith, omega arith),
    (
      inl (omega arith, omega arith),
      (
        inr refl,
        (
          inl (omega arith, omega arith),
          (
            inl (omega arith, omega arith),
            (
              inl (omega arith, omega arith),
              (
                inl (omega arith, omega arith),
                (
                  inl (omega arith, omega arith),
                  (
                    inl (omega arith, omega arith),
                    (
                      inl (omega arith, omega arith),
                      (
                        inl (omega arith, omega arith),
                        (
                          inr refl,
                          (
                            inl (omega arith, omega arith),
                            (
                              inl (omega arith, omega arith),
                              (
                                inl (omega arith, omega arith),
                                (inl (omega arith, omega arith), tt),
                              ),
                            ),
                          ),
                        ),
                      ),
                    ),
                  ),
                ),
              ),
            ),
          ),
        ),
      ),
    ),
  ),
)

scan_interval-IsSmall : All IsSmall scan_interval_text
scan_interval-IsSmall = (
  inl (omega arith, omega arith),
  (
    inl (omega arith, omega arith),
    (
      inl (omega arith, omega arith),
      (
        inl (omega arith, omega arith),
        (
          inr refl,
          (
            inl (omega arith, omega arith),
            (
              inl (omega arith, omega arith),
              (
                inl (omega arith, omega arith),
                (
                  inl (omega arith, omega arith),
                  (
                    inl (omega arith, omega arith),
                    (
                      inl (omega arith, omega arith),
                      (inl (omega arith, omega arith), (inl (omega arith, omega arith), tt)),
                    ),
                  ),
                ),
              ),
            ),
          ),
        ),
      ),
    ),
  ),
)

scan_count-IsSmall : All IsSmall scan_count_text
scan_count-IsSmall = (
  inl (omega arith, omega arith),
  (
    inl (omega arith, omega arith),
    (
      inl (omega arith, omega arith),
      (
        inl (omega arith, omega arith),
        (
          inr refl,
          (
            inl (omega arith, omega arith),
            (
              inl (omega arith, omega arith),
              (
                inl (omega arith, omega arith),
                (inl (omega arith, omega arith), (inl (omega arith, omega arith), tt)),
              ),
            ),
          ),
        ),
      ),
    ),
  ),
)

migration_max_migration_time-IsSmall : All IsSmall migration_max_migration_time_text
migration_max_migration_time-IsSmall = (
  inl (omega arith, omega arith),
  (
    inl (omega arith, omega arith),
    (
      inl (omega arith, omega arith),
      (
        inl (omega arith, omega arith),
        (
          inl (omega arith, omega arith),
          (
            inl (omega arith, omega arith),
            (
              inl (omega arith, omega arith),
              (
                inl (omega arith, omega arith),
                (
                  inl (omega arith, omega arith),
                  (
                    inr refl,
                    (
                      inl (omega arith, omega arith),
                      (
                        inl (omega arith, omega arith),
                        (
                          inl (omega arith, omega arith),
                          (
                            inr refl,
                            (
                              inl (omega arith, omega arith),
                              (
                                inl (omega arith, omega arith),
                                (
                                  inl (omega arith, omega arith),
                                  (
                                    inl (omega arith, omega arith),
                                    (
                                      inl (omega arith, omega arith),
                                      (
                                        inl (omega arith, omega arith),
                                        (
                                          inl (omega arith, omega arith),
                                          (
                                            inl (omega arith, omega arith),
                                            (
                                              inl (omega arith, omega arith),
                                              (
                                                inr refl,
                                                (
                                                  inl (omega arith, omega arith),
                                                  (
                                                    inl (omega arith, omega arith),
                                                    (
                                                      inl (omega arith, omega arith),
                                                      (inl (omega arith, omega arith), tt),
                                                    ),
                                                  ),
                                                ),
                                              ),
                                            ),
                                          ),
                                        ),
                                      ),
                                    ),
                                  ),
                                ),
                              ),
                            ),
                          ),
                        ),
                      ),
                    ),
                  ),
                ),
              ),
            ),
          ),
        ),
      ),
    ),
  ),
)

migration_max_blocking_time-IsSmall : All IsSmall migration_max_blocking_time_text
migration_max_blocking_time-IsSmall = (
  inl (omega arith, omega arith),
  (
    inl (omega arith, omega arith),
    (
      inl (omega arith, omega arith),
      (
        inl (omega arith, omega arith),
        (
          inl (omega arith, omega arith),
          (
            inl (omega arith, omega arith),
            (
              inl (omega arith, omega arith),
              (
                inl (omega arith, omega arith),
                (
                  inl (omega arith, omega arith),
                  (
                    inr refl,
                    (
                      inl (omega arith, omega arith),
                      (
                        inl (omega arith, omega arith),
                        (
                          inl (omega arith, omega arith),
                          (
                            inr refl,
                            (
                              inl (omega arith, omega arith),
                              (
                                inl (omega arith, omega arith),
                                (
                                  inl (omega arith, omega arith),
                                  (
                                    inl (omega arith, omega arith),
                                    (
                                      inl (omega arith, omega arith),
                                      (
                                        inl (omega arith, omega arith),
                                        (
                                          inl (omega arith, omega arith),
                                          (
                                            inl (omega arith, omega arith),
                                            (
                                              inr refl,
                                              (
                                                inl (omega arith, omega arith),
                                                (
                                                  inl (omega arith, omega arith),
                                                  (
                                                    inl (omega arith, omega arith),
                                                    (inl (omega arith, omega arith), tt),
                                                  ),
                                                ),
                                              ),
                                            ),
                                          ),
                                        ),
                                      ),
                                    ),
                                  ),
                                ),
                              ),
                            ),
                          ),
                        ),
                      ),
                    ),
                  ),
                ),
              ),
            ),
          ),
        ),
      ),
    ),
  ),
)

migration_scan_interval-IsSmall : All IsSmall migration_scan_interval_text
migration_scan_interval-IsSmall = (
  inl (omega arith, omega arith),
  (
    inl (omega arith, omega arith),
    (
      inl (omega arith, omega arith),
      (
        inl (omega arith, omega arith),
        (
          inl (omega arith, omega arith),
          (
            inl (omega arith, omega arith),
            (
              inl (omega arith, omega arith),
              (
                inl (omega arith, omega arith),
                (
                  inl (omega arith, omega arith),
                  (
                    inr refl,
                    (
                      inl (omega arith, omega arith),
                      (
                        inl (omega arith, omega arith),
                        (
                          inl (omega arith, omega arith),
                          (
                            inl (omega arith, omega arith),
                            (
                              inr refl,
                              (
                                inl (omega arith, omega arith),
                                (
                                  inl (omega arith, omega arith),
                                  (
                                    inl (omega arith, omega arith),
                                    (
                                      inl (omega arith, omega arith),
                                      (
                                        inl (omega arith, omega arith),
                                        (
                                          inl (omega arith, omega arith),
                                          (
                                            inl (omega arith, omega arith),
                                            (inl (omega arith, omega arith), tt),
                                          ),
                                        ),
                                      ),
                                    ),
                                  ),
                                ),
                              ),
                            ),
                          ),
                        ),
                      ),
                    ),
                  ),
                ),
              ),
            ),
          ),
        ),
      ),
    ),
  ),
)

migration_scan_count-IsSmall : All IsSmall migration_scan_count_text
migration_scan_count-IsSmall = (
  inl (omega arith, omega arith),
  (
    inl (omega arith, omega arith),
    (
      inl (omega arith, omega arith),
      (
        inl (omega arith, omega arith),
        (
          inl (omega arith, omega arith),
          (
            inl (omega arith, omega arith),
            (
              inl (omega arith, omega arith),
              (
                inl (omega arith, omega arith),
                (
                  inl (omega arith, omega arith),
                  (
                    inr refl,
                    (
                      inl (omega arith, omega arith),
                      (
                        inl (omega arith, omega arith),
                        (
                          inl (omega arith, omega arith),
                          (
                            inl (omega arith, omega arith),
                            (
                              inr refl,
                              (
                                inl (omega arith, omega arith),
                                (
                                  inl (omega arith, omega arith),
                                  (
                                    inl (omega arith, omega arith),
                                    (
                                      inl (omega arith, omega arith),
                                      (inl (omega arith, omega arith), tt),
                                    ),
                                  ),
                                ),
                              ),
                            ),
                          ),
                        ),
                      ),
                    ),
                  ),
                ),
              ),
            ),
          ),
        ),
      ),
    ),
  ),
)

module _ (to_lowercase : Text → Text) (lower : IsLowerCase to_lowercase) where
  set_strategy :
      (config : ClusterConfig) (strategy : CompressionStrategy)
      → set_field to_lowercase config compression_strategy_text (strategy_to_str strategy)
        ≡ ok (with_strategy config strategy)
  unfolding set_field set_lower_field text_eq
  set_strategy config CompressionStrategy.disabled =
      rw (lower.small compression_strategy_text compression_strategy-IsSmall)
        (rw (lower.small disabled_text disabled-IsSmall) refl)
  set_strategy config CompressionStrategy.set_get_only =
      rw (lower.small compression_strategy_text compression_strategy-IsSmall)
        (rw (lower.small set_get_only_text set_get_only-IsSmall) refl)
  set_strategy config CompressionStrategy.allow_all =
      rw (lower.small compression_strategy_text compression_strategy-IsSmall)
        (rw (lower.small allow_all_text strategies-IsSmall) refl)

  set_max_migration_time :
      (config : ClusterConfig) (n : ℕ)
      → n < word_mod
      → set_field to_lowercase config migration_max_migration_time_text (to_decimal n)
        ≡ ok (with_migration config (record config.migration_config { max_migration_time = n }))
  unfolding set_field set_lower_field set_migration_field starts_with behind_underscore text_eq
  set_max_migration_time config n h =
      rw (lower.small migration_max_migration_time_text migration_max_migration_time-IsSmall) (
        rw (lower.small max_migration_time_text max_migration_time-IsSmall)
          (rw (parse_number-to_decimal n h) refl))

  set_max_blocking_time :
      (config : ClusterConfig) (n : ℕ)
      → n < word_mod
      → set_field to_lowercase config migration_max_blocking_time_text (to_decimal n)
        ≡ ok (with_migration config (record config.migration_config { max_blocking_time = n }))
  unfolding set_field set_lower_field set_migration_field starts_with behind_underscore text_eq
  set_max_blocking_time config n h =
      rw (lower.small migration_max_blocking_time_text migration_max_blocking_time-IsSmall) (
        rw (lower.small max_blocking_time_text max_blocking_time-IsSmall)
          (rw (parse_number-to_decimal n h) refl))

  set_scan_interval :
      (config : ClusterConfig) (n : ℕ)
      → n < word_mod
      → set_field to_lowercase config migration_scan_interval_text (to_decimal n)
        ≡ ok (with_migration config (record config.migration_config { scan_interval = n }))
  unfolding set_field set_lower_field set_migration_field starts_with behind_underscore text_eq
  set_scan_interval config n h =
      rw (lower.small migration_scan_interval_text migration_scan_interval-IsSmall) (
        rw (lower.small scan_interval_text scan_interval-IsSmall)
          (rw (parse_number-to_decimal n h) refl))

  set_scan_count :
      (config : ClusterConfig) (n : ℕ)
      → n < word_mod
      → 0 < n
      → set_field to_lowercase config migration_scan_count_text (to_decimal n)
        ≡ ok (with_migration config (record config.migration_config { scan_count = n }))
  unfolding set_field set_lower_field set_migration_field starts_with behind_underscore text_eq
  set_scan_count config n h k =
      let not_zero : (n == 0) ≡ false = ground (arith, k) in
      rw (lower.small migration_scan_count_text migration_scan_count-IsSmall) (
        rw (lower.small scan_count_text scan_count-IsSmall)
          (rw (parse_number-to_decimal n h) (rw not_zero refl)))

  -- Let lower case leave texts of ASCII small letters and underscores as they are. Let the numbers of a
  -- configuration be u64, and its scan count not be zero. Then setting the fields of its map on any
  -- other configuration succeeds, and gives the configuration.
  pub set_fields-to_str_map :
      {E : Type 0} (on_error : Text → Text → ConfigError → E) (config other : ClusterConfig)
      → IsValidConfig config
      → set_fields to_lowercase on_error other (to_str_map config) ≡ ok config
  unfolding set_fields to_str_map
  set_fields-to_str_map on_error config other valid =
      rw (set_strategy other config.compression_strategy) (
        rw
          (set_max_migration_time _ config.migration_config.max_migration_time valid.migration_time)
          (rw
            (set_max_blocking_time _ config.migration_config.max_blocking_time valid.blocking_time)
            (rw (set_scan_interval _ config.migration_config.scan_interval valid.interval) (
              rw (set_scan_count _ config.migration_config.scan_count valid.count valid.some_count)
                refl))))
