-- ===== src/Cmd/TemplateMeta/Tests.antt =====
-- A project made from the tag v2 of the built-in template.
use godash.Common.{◌≡◌, refl, some, arith, [], ◌∷◌}
use godash.Cmd.Project.{trim_left, trim_right, split_assign, split_at, after_equals}
use godash.Cmd.TemplateMeta.{TemplateMeta, write_template_meta, read_template_meta, setting}
use godash.Cmd.TemplateMeta.RoundTrip.{IsSetting, read_template_meta-write_template_meta}

abbrev meta : TemplateMeta
meta = record { remote = []; version = 118 ∷ 50 ∷ []; commit = 97 ∷ 98 ∷ [] }

write_template_meta_test :
    write_template_meta meta
    ≡ 118 ∷ 101 ∷ 114 ∷ 115 ∷ 105 ∷ 111 ∷ 110 ∷ 61 ∷ 118 ∷ 50 ∷ 10 ∷ 99 ∷ 111 ∷ 109 ∷ 109 ∷ 105
      ∷ 116 ∷ 61 ∷ 97 ∷ 98 ∷ 10 ∷ []
unfolding write_template_meta setting
write_template_meta_test = refl

none-IsSetting : IsSetting []
unfolding trim_left trim_right split_assign
none-IsSetting = record {
  is_value = record { left = refl; right = refl; plain = refl };
  no_break = tt;
}

version-IsSetting : IsSetting (118 ∷ 50 ∷ [])
unfolding trim_left trim_right split_assign split_at after_equals
version-IsSetting = record {
  is_value = record { left = refl; right = refl; plain = refl };
  no_break = (refl, (refl, tt));
}

commit-IsSetting : IsSetting (97 ∷ 98 ∷ [])
unfolding trim_left trim_right split_assign split_at after_equals
commit-IsSetting = record {
  is_value = record { left = refl; right = refl; plain = refl };
  no_break = (refl, (refl, tt));
}

read_template_meta-write_template_meta_example :
    read_template_meta (write_template_meta meta) ≡ some meta
read_template_meta-write_template_meta_example =
    read_template_meta-write_template_meta meta none-IsSetting version-IsSetting commit-IsSetting
      (omega arith, omega arith, omega arith)
