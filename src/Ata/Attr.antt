-- ===== src/Ata/Attr.antt =====
-- internal/ata/attr.go: the default attribute names. The map is an association list.
pub mod Names
use go_smartmontools.Base.{
  ℕ, Bool, ◌&&◌, ◌==◌, ltb, not, if◌then◌else◌, Option, none, some, List, [], ◌∷◌, String, bit_and,
}

abbrev pub attr_flag_hdd_only : ℕ
attr_flag_hdd_only = 1

abbrev pub attr_flag_ssd_only : ℕ
attr_flag_ssd_only = 2

pub record AttrDef : Type 0 where
  pub name : String
  pub flags : ℕ

unfoldable pub default_attr_defs : List (ℕ × AttrDef)
default_attr_defs =
    (1, record { name = "Raw_Read_Error_Rate"; flags = 0 })
    ∷ (2, record { name = "Throughput_Performance"; flags = 0 })
    ∷ (3, record { name = "Spin_Up_Time"; flags = 0 })
    ∷ (4, record { name = "Start_Stop_Count"; flags = 0 })
    ∷ (5, record { name = "Reallocated_Sector_Ct"; flags = 0 })
    ∷ (6, record { name = "Read_Channel_Margin"; flags = attr_flag_hdd_only })
    ∷ (7, record { name = "Seek_Error_Rate"; flags = attr_flag_hdd_only })
    ∷ (8, record { name = "Seek_Time_Performance"; flags = attr_flag_hdd_only })
    ∷ (9, record { name = "Power_On_Hours"; flags = 0 })
    ∷ (10, record { name = "Spin_Retry_Count"; flags = attr_flag_hdd_only })
    ∷ (11, record { name = "Calibration_Retry_Count"; flags = attr_flag_hdd_only })
    ∷ (12, record { name = "Power_Cycle_Count"; flags = 0 })
    ∷ (13, record { name = "Read_Soft_Error_Rate"; flags = 0 })
    ∷ (22, record { name = "Helium_Level"; flags = attr_flag_hdd_only })
    ∷ (23, record { name = "Helium_Condition_Lower"; flags = attr_flag_hdd_only })
    ∷ (24, record { name = "Helium_Condition_Upper"; flags = attr_flag_hdd_only })
    ∷ (175, record { name = "Program_Fail_Count_Chip"; flags = attr_flag_ssd_only })
    ∷ (176, record { name = "Erase_Fail_Count_Chip"; flags = attr_flag_ssd_only })
    ∷ (177, record { name = "Wear_Leveling_Count"; flags = attr_flag_ssd_only })
    ∷ (178, record { name = "Used_Rsvd_Blk_Cnt_Chip"; flags = attr_flag_ssd_only })
    ∷ (179, record { name = "Used_Rsvd_Blk_Cnt_Tot"; flags = attr_flag_ssd_only })
    ∷ (180, record { name = "Unused_Rsvd_Blk_Cnt_Tot"; flags = attr_flag_ssd_only })
    ∷ (181, record { name = "Program_Fail_Cnt_Total"; flags = 0 })
    ∷ (182, record { name = "Erase_Fail_Count_Total"; flags = attr_flag_ssd_only })
    ∷ (183, record { name = "Runtime_Bad_Block"; flags = 0 })
    ∷ (184, record { name = "End-to-End_Error"; flags = 0 })
    ∷ (187, record { name = "Reported_Uncorrect"; flags = 0 })
    ∷ (188, record { name = "Command_Timeout"; flags = 0 })
    ∷ (189, record { name = "High_Fly_Writes"; flags = attr_flag_hdd_only })
    ∷ (190, record { name = "Airflow_Temperature_Cel"; flags = 0 })
    ∷ (191, record { name = "G-Sense_Error_Rate"; flags = attr_flag_hdd_only })
    ∷ (192, record { name = "Power-Off_Retract_Count"; flags = 0 })
    ∷ (193, record { name = "Load_Cycle_Count"; flags = attr_flag_hdd_only })
    ∷ (194, record { name = "Temperature_Celsius"; flags = 0 })
    ∷ (195, record { name = "Hardware_ECC_Recovered"; flags = 0 })
    ∷ (196, record { name = "Reallocated_Event_Count"; flags = 0 })
    ∷ (197, record { name = "Current_Pending_Sector"; flags = 0 })
    ∷ (198, record { name = "Offline_Uncorrectable"; flags = 0 })
    ∷ (199, record { name = "UDMA_CRC_Error_Count"; flags = 0 })
    ∷ (200, record { name = "Multi_Zone_Error_Rate"; flags = attr_flag_hdd_only })
    ∷ (201, record { name = "Soft_Read_Error_Rate"; flags = attr_flag_hdd_only })
    ∷ (202, record { name = "Data_Address_Mark_Errs"; flags = attr_flag_hdd_only })
    ∷ (203, record { name = "Run_Out_Cancel"; flags = 0 })
    ∷ (204, record { name = "Soft_ECC_Correction"; flags = 0 })
    ∷ (205, record { name = "Thermal_Asperity_Rate"; flags = 0 })
    ∷ (206, record { name = "Flying_Height"; flags = attr_flag_hdd_only })
    ∷ (207, record { name = "Spin_High_Current"; flags = attr_flag_hdd_only })
    ∷ (208, record { name = "Spin_Buzz"; flags = attr_flag_hdd_only })
    ∷ (209, record { name = "Offline_Seek_Performnce"; flags = attr_flag_hdd_only })
    ∷ (220, record { name = "Disk_Shift"; flags = attr_flag_hdd_only })
    ∷ (221, record { name = "G-Sense_Error_Rate"; flags = attr_flag_hdd_only })
    ∷ (222, record { name = "Loaded_Hours"; flags = attr_flag_hdd_only })
    ∷ (223, record { name = "Load_Retry_Count"; flags = attr_flag_hdd_only })
    ∷ (224, record { name = "Load_Friction"; flags = attr_flag_hdd_only })
    ∷ (225, record { name = "Load_Cycle_Count"; flags = attr_flag_hdd_only })
    ∷ (226, record { name = "Load-in_Time"; flags = attr_flag_hdd_only })
    ∷ (227, record { name = "Torq-amp_Count"; flags = attr_flag_hdd_only })
    ∷ (228, record { name = "Power-off_Retract_Count"; flags = 0 })
    ∷ (230, record { name = "Head_Amplitude"; flags = attr_flag_hdd_only })
    ∷ (231, record { name = "Temperature_Celsius"; flags = attr_flag_hdd_only })
    ∷ (232, record { name = "Available_Reservd_Space"; flags = 0 })
    ∷ (233, record { name = "Media_Wearout_Indicator"; flags = attr_flag_ssd_only })
    ∷ (240, record { name = "Head_Flying_Hours"; flags = attr_flag_hdd_only })
    ∷ (241, record { name = "Total_LBAs_Written"; flags = 0 })
    ∷ (242, record { name = "Total_LBAs_Read"; flags = 0 })
    ∷ (250, record { name = "Read_Error_Retry_Rate"; flags = 0 })
    ∷ (254, record { name = "Free_Fall_Sensor"; flags = attr_flag_hdd_only })
    ∷ []

unfoldable pub lookup : ℕ → List (ℕ × AttrDef) → Option AttrDef
lookup id [] = none
lookup id ((k, v) ∷ m) = if k == id then some v else lookup id m

-- The name of a definition for a rotation rate: the tests of `AttrName` behind the lookup.
unfoldable pub name_for : ℕ → Option AttrDef → String
name_for rpm none = "Unknown_Attribute"
name_for rpm (some def) =
    if not (bit_and def.flags attr_flag_hdd_only == 0) && (rpm == 1)
    then "Unknown_SSD_Attribute"
    else if not (bit_and def.flags attr_flag_ssd_only == 0) && ltb 1 rpm
    then "Unknown_HDD_Attribute"
    else def.name

-- A rotation rate is 0 (unknown), 1 (SSD) or more (HDD).
unfoldable pub attr_name : ℕ → ℕ → String
unfolding name_for
attr_name id rpm = name_for rpm (lookup id default_attr_defs)
