-- ===== src/Mediums.antt =====
-- mediums.rs
use nearby_rs.Prelude.{
  ℕ, zero, suc, ◌≡◌, refl, ap, ◌∙◌, sym, ◌↔◌, Bool, true, Eq, nat_beq, nat_beq_iff,
}

pub data Medium : Type 0 where
  unknown_medium mdns bluetooth wifi_hotspot ble wifi_lan wifi_aware nfc wifi_direct web_rtc
        ble_l2cap usb web_rtc_non_cellular awdl :
      Medium

pub data WifiDirectAuthType : Type 0 where
  wifi_direct_type_unknown wifi_direct_with_password wifi_direct_with_pin
        wifi_direct_with_device_name :
      WifiDirectAuthType

-- `m as i32`
unfoldable pub medium_number : Medium → ℕ
medium_number unknown_medium = 0
medium_number mdns = 1
medium_number bluetooth = 2
medium_number wifi_hotspot = 3
medium_number ble = 4
medium_number wifi_lan = 5
medium_number wifi_aware = 6
medium_number nfc = 7
medium_number wifi_direct = 8
medium_number web_rtc = 9
medium_number ble_l2cap = 10
medium_number usb = 11
medium_number web_rtc_non_cellular = 12
medium_number awdl = 13

-- The medium of a number, to tell mediums apart by their numbers.
abbrev number_medium : ℕ → Medium
number_medium zero = unknown_medium
number_medium (suc zero) = mdns
number_medium (suc (suc zero)) = bluetooth
number_medium (suc (suc (suc zero))) = wifi_hotspot
number_medium (suc (suc (suc (suc zero)))) = ble
number_medium (suc (suc (suc (suc (suc zero))))) = wifi_lan
number_medium (suc (suc (suc (suc (suc (suc zero)))))) = wifi_aware
number_medium (suc (suc (suc (suc (suc (suc (suc zero))))))) = nfc
number_medium (suc (suc (suc (suc (suc (suc (suc (suc zero)))))))) = wifi_direct
number_medium (suc (suc (suc (suc (suc (suc (suc (suc (suc zero))))))))) = web_rtc
number_medium (suc (suc (suc (suc (suc (suc (suc (suc (suc (suc zero)))))))))) = ble_l2cap
number_medium (suc (suc (suc (suc (suc (suc (suc (suc (suc (suc (suc zero))))))))))) = usb
number_medium (suc (suc (suc (suc (suc (suc (suc (suc (suc (suc (suc (suc zero)))))))))))) =
    web_rtc_non_cellular
number_medium _ = awdl

number_medium-medium_number : (m : Medium) → number_medium (medium_number m) ≡ m
unfolding medium_number
number_medium-medium_number unknown_medium = refl
number_medium-medium_number mdns = refl
number_medium-medium_number bluetooth = refl
number_medium-medium_number wifi_hotspot = refl
number_medium-medium_number ble = refl
number_medium-medium_number wifi_lan = refl
number_medium-medium_number wifi_aware = refl
number_medium-medium_number nfc = refl
number_medium-medium_number wifi_direct = refl
number_medium-medium_number web_rtc = refl
number_medium-medium_number ble_l2cap = refl
number_medium-medium_number usb = refl
number_medium-medium_number web_rtc_non_cellular = refl
number_medium-medium_number awdl = refl

unfoldable pub medium_beq : Medium → Medium → Bool
unfolding medium_number
medium_beq a b = nat_beq (medium_number a) (medium_number b)

pub medium_beq_iff : (a b : Medium) → (medium_beq a b ≡ true) ↔ (a ≡ b)
unfolding medium_beq
medium_beq_iff a b = (
  λ h.
      sym (number_medium-medium_number a)
      ∙ ap number_medium ((nat_beq_iff (medium_number a) (medium_number b)).0 h)
      ∙ number_medium-medium_number b,
  λ h. (nat_beq_iff (medium_number a) (medium_number b)).1 (ap medium_number h),
)

instance abbrev pub medium_eq : Eq Medium
medium_eq = record { beq = medium_beq; beq_iff = medium_beq_iff }
