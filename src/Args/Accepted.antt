-- ===== src/Args/Accepted.antt =====
-- What VerifyArgs promises of the arguments that it lets pass.
use tools_acloud.Args.Accepts.{IsConsistent, SuitsKind, SuitsPlace, SuitsWorld}
use tools_acloud.Args.Facts.{FirstFacts, RestFacts, first_facts, Absent3, Absent5}
use tools_acloud.Base.{String, ◌⊎◌, Bool, inl, inr, ℕ, ◌≡◌}
use tools_acloud.Args.{Args, verify_args}
use tools_acloud.Exec.{ok}

module _ {A B : Type 0} where
  flip : A ⊎ B → B ⊎ A
  flip (inl a) = inr a
  flip (inr b) = inl b

for_cuttlefish :
    {C A B X Y : Type 0} → C ⊎ A → (A → X × Y × B) → (D : Type 0) → D ⊎ C → C ⊎ (X × Y × B × D)
for_cuttlefish (inl c) f D d = inl c
for_cuttlefish (inr a) f D (inr c) = inl c
for_cuttlefish (inr a) f D (inl d) = let (x, y, b) = f a in inr (x, y, b, d)

for_cheeps : {C A X : Type 0} → C ⊎ A → (A → X) → C ⊎ X
for_cheeps (inl c) f = inl c
for_cheeps (inr a) f = inr (f a)

gather :
    (exists : String → Bool) (port_is_free : ℕ → Bool) (args : Args)
    → FirstFacts exists port_is_free args
    → RestFacts exists port_is_free args
    → IsConsistent args × SuitsKind args × SuitsPlace args × SuitsWorld exists port_is_free args
gather exists port_is_free args (flavor, system, port, here, gpu, free, hw)
      (
        cheeps,
        user,
        unlock,
        (image, gf, system_image, tools, webrtc),
        (host, host_num, host_user, key),
      ) =
    (
      record {
        flavor_is_known = flavor;
        user_and_password = user;
        unlock_connects = unlock;
        hw_is_known = hw;
      },
      record {
        cuttlefish_only = for_cuttlefish system (Absent3 _ _ _) _ webrtc;
        goldfish_only = flip gf;
        cheeps_only = for_cheeps cheeps (Absent5 _ _ _ _ _);
      },
      record {
        one_device_here = here;
        not_on_host = flip host;
        one_device_on_host = host_num;
        one_device_with_port = port;
        gpu_is_named = gpu;
        user_of_host = flip host_user;
        key_of_host = flip key;
      },
      record {
        image_exists = image;
        system_image_exists = system_image;
        tools_exist = tools;
        port_can_be_taken = free;
      },
    )

-- Arguments that VerifyArgs lets pass fit together: the flavor and the hw properties are supported,
-- user name and password come together, options of one kind of device are given for that kind only,
-- several devices are not asked of a local instance, a host or one adb port, the options of a host
-- come with a host, and the images, tools and port exist or are free.
pub verify_args-Accepted :
    (exists : String → Bool) (port_is_free : ℕ → Bool) (args : Args)
    → verify_args exists port_is_free args ≡ ok tt
    → IsConsistent args × SuitsKind args × SuitsPlace args × SuitsWorld exists port_is_free args
verify_args-Accepted exists port_is_free args h =
    let (a, b) = first_facts exists port_is_free args h in gather exists port_is_free args a b
