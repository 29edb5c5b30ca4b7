-- ===== src/Pinmux/Tables/Dv500.antt =====
-- src/reginfo.c: the registers of `DV500regs`, in its order.
use ipctool.Base.{List, [], ◌∷◌, ◌≡◌, refl, true}
use ipctool.Pinmux.Register.{Register, muxctrl, proper}

pub dv500_regs : List Register
dv500_regs =
    muxctrl 0x10260000
      ("GPIO2_0" ∷ "reserved" ∷ "reserved" ∷ "SPI2_CSN" ∷ "I2S0_WS" ∷ "I2C1_SDA" ∷ [])
    ∷ muxctrl 0x10260004
        ("GPIO2_1" ∷ "reserved" ∷ "reserved" ∷ "SPI2_SCLK" ∷ "I2S0_MCLK" ∷ "I2C1_SCL" ∷ [])
    ∷ muxctrl 0x10260008
        ("GPIO2_2" ∷ "reserved" ∷ "reserved" ∷ "SPI2_SDI" ∷ "I2S0_SD_TX" ∷ "I2C2_SDA" ∷ [])
    ∷ muxctrl 0x1026000C
        ("GPIO2_3" ∷ "reserved" ∷ "reserved" ∷ "SPI2_SDO" ∷ "I2S0_BCLK" ∷ "I2C2_SCL" ∷ [])
    ∷ muxctrl 0x10260010 ("reserved" ∷ "reserved" ∷ "reserved" ∷ "reserved" ∷ "RGB_DATA15" ∷ [])
    ∷ muxctrl 0x10260014 ("reserved" ∷ "reserved" ∷ "reserved" ∷ "reserved" ∷ "RGB_DATA16" ∷ [])
    ∷ muxctrl 0x1026001C ("GPIO2_6" ∷ "MDCLK0" ∷ "reserved" ∷ "reserved" ∷ "RGB_DATA17" ∷ [])
    ∷ muxctrl 0x10260020 ("GPIO2_7" ∷ "MDIO0" ∷ "reserved" ∷ "I2S0_SD_RX" ∷ "RGB_DATA18" ∷ [])
    ∷ muxctrl 0x10260028 ("reserved" ∷ "reserved" ∷ "SPI3_SDO" ∷ "reserved" ∷ "RGB_DATA4" ∷ [])
    ∷ muxctrl 0x1026002C ("reserved" ∷ "reserved" ∷ "SPI3_SDI" ∷ "reserved" ∷ "RGB_DATA3" ∷ [])
    ∷ muxctrl 0x10260030 ("reserved" ∷ "reserved" ∷ "reserved" ∷ "reserved" ∷ "RGB_DATA12" ∷ [])
    ∷ muxctrl 0x10260034 ("reserved" ∷ "reserved" ∷ "reserved" ∷ "reserved" ∷ "RGB_DATA13" ∷ [])
    ∷ muxctrl 0x10260038 ("reserved" ∷ "reserved" ∷ "reserved" ∷ "reserved" ∷ "RGB_DATA14" ∷ [])
    ∷ muxctrl 0x1026003C (
        "reserved" ∷ "reserved" ∷ "SPI3_SCLK" ∷ "reserved" ∷ "RGB_DATA6" ∷ "reserved"
        ∷ "SPI_TFT_CLK" ∷ [])
    ∷ muxctrl 0x10260040 (
        "reserved" ∷ "reserved" ∷ "SPI3_CSN0" ∷ "reserved" ∷ "RGB_DATA5" ∷ "reserved"
        ∷ "SPI_TFT_CSN" ∷ [])
    ∷ muxctrl 0x10260044 (
        "reserved" ∷ "reserved" ∷ "SPI3_CSN1" ∷ "reserved" ∷ "RGB_DATA7" ∷ "reserved"
        ∷ "SPI_TFT_DATA" ∷ [])
    ∷ muxctrl 0x10260048 ("reserved" ∷ "reserved" ∷ "reserved" ∷ "reserved" ∷ "RGB_DATA8" ∷ [])
    ∷ muxctrl 0x1026004C ("reserved" ∷ "reserved" ∷ "reserved" ∷ "reserved" ∷ "RGB_DATA9" ∷ [])
    ∷ muxctrl 0x10260050 ("reserved" ∷ "reserved" ∷ "reserved" ∷ "reserved" ∷ "RGB_DATA11" ∷ [])
    ∷ muxctrl 0x10260054 ("reserved" ∷ "reserved" ∷ "reserved" ∷ "reserved" ∷ "RGB_DATA10" ∷ [])
    ∷ muxctrl 0x10260058 (
        "reserved" ∷ "reserved" ∷ "I2S0_SD_RX" ∷ "SPI3_CSN0" ∷ "RGB_HS" ∷ "reserved" ∷ "SPI_TFT_CSN"
        ∷ "DMIC_SD0" ∷ [])
    ∷ muxctrl 0x1026005C (
        "reserved" ∷ "reserved" ∷ "I2S0_MCLK" ∷ "SPI3_SCLK" ∷ "RGB_CLK" ∷ "reserved" ∷ "SPI_TFT_CLK"
        ∷ "DMIC_MCLK" ∷ [])
    ∷ muxctrl 0x10260060 (
        "reserved" ∷ "reserved" ∷ "I2S0_WS" ∷ "SPI3_SDI" ∷ "RGB_DATA0" ∷ "reserved" ∷ "SPI_TFT_DATA"
        ∷ "DMIC_SD1" ∷ [])
    ∷ muxctrl 0x10260064 (
        "reserved" ∷ "reserved" ∷ "I2S0_SD_TX" ∷ "SPI3_SDO" ∷ "RGB_VS" ∷ "reserved" ∷ "reserved"
        ∷ "DMIC_SD2" ∷ [])
    ∷ muxctrl 0x10260068 (
        "reserved" ∷ "reserved" ∷ "I2S0_BCLK" ∷ "SPI3_CSN1" ∷ "RGB_DATA1" ∷ "reserved" ∷ "reserved"
        ∷ "DMIC_SD3" ∷ [])
    ∷ muxctrl 0x1026006C ("GPIO5_1" ∷ "I2C0_SDA" ∷ "reserved" ∷ "reserved" ∷ "RGB_DE" ∷ [])
    ∷ muxctrl 0x10260070
        ("reserved" ∷ "I2C0_SCL" ∷ "VO_BT1120_DATA15" ∷ "reserved" ∷ "RGB_DATA2" ∷ [])
    ∷ muxctrl 0x10260074 ("reserved" ∷ "PWM1" ∷ [])
    ∷ muxctrl 0x10260078 (
        "DSI_D3N" ∷ "reserved" ∷ "VO_BT656_CLK" ∷ "SPI3_CSN0" ∷ "VO_BT1120_DATA13" ∷ "reserved"
        ∷ "SPI_TFT_CSN" ∷ [])
    ∷ muxctrl 0x1026007C (
        "DSI_D3P" ∷ "reserved" ∷ "VO_BT1120_DATA7" ∷ "SPI3_SDI" ∷ "reserved" ∷ "reserved"
        ∷ "SPI_TFT_DATA" ∷ [])
    ∷ muxctrl 0x10260080
        ("DSI_D1N" ∷ "reserved" ∷ "VO_BT1120_DATA3" ∷ "reserved" ∷ "RGB_DATA20" ∷ [])
    ∷ muxctrl 0x10260084
        ("DSI_D1P" ∷ "reserved" ∷ "VO_BT1120_DATA2" ∷ "reserved" ∷ "RGB_DATA21" ∷ [])
    ∷ muxctrl 0x10260088 (
        "DSI_CKN" ∷ "reserved" ∷ "VO_BT1120_DATA5" ∷ "SPI3_SCLK" ∷ "reserved" ∷ "reserved"
        ∷ "SPI_TFT_CLK" ∷ [])
    ∷ muxctrl 0x1026008C
        ("DSI_CKP" ∷ "reserved" ∷ "VO_BT1120_DATA4" ∷ "reserved" ∷ "RGB_DATA19" ∷ [])
    ∷ muxctrl 0x10260090
        ("DSI_D0N" ∷ "reserved" ∷ "VO_BT1120_DATA1" ∷ "reserved" ∷ "RGB_DATA22" ∷ [])
    ∷ muxctrl 0x10260094
        ("DSI_D0P" ∷ "reserved" ∷ "VO_BT1120_DATA0" ∷ "reserved" ∷ "RGB_DATA23" ∷ [])
    ∷ muxctrl 0x10260098 ("DSI_D2N" ∷ "reserved" ∷ "VO_BT1120_DATA6" ∷ "SPI3_SDO" ∷ [])
    ∷ muxctrl 0x1026009C ("DSI_D2P" ∷ "reserved" ∷ "VO_BT1120_DATA14" ∷ "SPI3_CSN1" ∷ [])
    ∷ muxctrl 0x102600A0 ("reserved" ∷ "reserved" ∷ "VO_BT1120_DATA11" ∷ [])
    ∷ muxctrl 0x102600A4 ("reserved" ∷ "reserved" ∷ "VO_BT1120_DATA10" ∷ [])
    ∷ muxctrl 0x102600A8 ("reserved" ∷ "reserved" ∷ "VO_BT1120_DATA12" ∷ [])
    ∷ muxctrl 0x102600AC ("reserved" ∷ "reserved" ∷ "VO_BT1120_DATA9" ∷ [])
    ∷ muxctrl 0x102600B0 ("reserved" ∷ "reserved" ∷ "VO_BT1120_CLK" ∷ [])
    ∷ muxctrl 0x102600B4 ("reserved" ∷ "reserved" ∷ "VO_BT1120_DATA8" ∷ [])
    ∷ muxctrl 0x179F0000 ("reserved" ∷ "reserved" ∷ "I2C7_SDA" ∷ [])
    ∷ muxctrl 0x179F0004 ("reserved" ∷ "reserved" ∷ "I2C7_SCL" ∷ [])
    ∷ muxctrl 0x179F0008 ("reserved" ∷ "reserved" ∷ "reserved" ∷ "VSYNC_TE_MIPITX" ∷ [])
    ∷ muxctrl 0x179F0010 ("GPIO10_3" ∷ "USB_VBUS" ∷ [])
    ∷ muxctrl 0x179F0014 ("reserved" ∷ "USB_PWREN" ∷ [])
    ∷ muxctrl 0x179F001C ("reserved" ∷ "reserved" ∷ "reserved" ∷ "reserved" ∷ "SENSOR2_CLK" ∷ [])
    ∷ muxctrl 0x179F0024 (
        "reserved" ∷ "SPI0_CSN1" ∷ "SENSOR3_CLK" ∷ "reserved" ∷ "reserved" ∷ "reserved" ∷ "VI_DATA3"
        ∷ "THERMO_PS" ∷ [])
    ∷ muxctrl 0x179F0028 (
        "reserved" ∷ "SPI0_CSN0" ∷ "I2C3_SDA" ∷ "reserved" ∷ "reserved" ∷ "reserved" ∷ "VI_DATA1"
        ∷ "THERMO_DO6" ∷ [])
    ∷ muxctrl 0x179F002C (
        "reserved" ∷ "SPI0_SDI" ∷ "I2C3_SCL" ∷ "reserved" ∷ "reserved" ∷ "reserved" ∷ "VI_DATA0"
        ∷ "THERMO_DO7" ∷ [])
    ∷ muxctrl 0x179F0030 (
        "reserved" ∷ "SPI0_SDO" ∷ "I2C4_SDA" ∷ "reserved" ∷ "reserved" ∷ "reserved" ∷ "VI_DATA2"
        ∷ "THERMO_HS" ∷ [])
    ∷ muxctrl 0x179F0034 (
        "reserved" ∷ "SPI0_SCLK" ∷ "I2C4_SCL" ∷ "reserved" ∷ "reserved" ∷ "reserved" ∷ "VI_CLK"
        ∷ "THERMO_CLK" ∷ [])
    ∷ muxctrl 0x179F0038 (
        "reserved" ∷ "SENSOR0_HS" ∷ "reserved" ∷ "reserved" ∷ "reserved" ∷ "reserved" ∷ "VI_DATA7"
        ∷ "THERMO_VS" ∷ [])
    ∷ muxctrl 0x179F003C (
        "reserved" ∷ "SENSOR0_VS" ∷ "reserved" ∷ "reserved" ∷ "reserved" ∷ "reserved" ∷ "VI_DATA6"
        ∷ "THERMO_SD1" ∷ [])
    ∷ muxctrl 0x179F0040 (
        "reserved" ∷ "SENSOR0_RSTN" ∷ "reserved" ∷ "reserved" ∷ "reserved" ∷ "VI_DATA8" ∷ "VI_DATA4"
        ∷ "THERMO_SD0" ∷ [])
    ∷ muxctrl 0x179F0044 (
        "reserved" ∷ "SENSOR0_CLK" ∷ "reserved" ∷ "reserved" ∷ "reserved" ∷ "VI_DATA9" ∷ "VI_DATA5"
        ∷ "THERMO_MCK" ∷ [])
    ∷ muxctrl 0x179F0048 (
        "MIPI_RX0_D0N" ∷ "reserved" ∷ "reserved" ∷ "reserved" ∷ "reserved" ∷ "reserved"
        ∷ "VI_DATA10" ∷ [])
    ∷ muxctrl 0x179F004C (
        "MIPI_RX0_D0P" ∷ "reserved" ∷ "reserved" ∷ "reserved" ∷ "reserved" ∷ "reserved"
        ∷ "VI_DATA11" ∷ [])
    ∷ muxctrl 0x179F0050 (
        "MIPI_RX0_D2N" ∷ "reserved" ∷ "reserved" ∷ "reserved" ∷ "reserved" ∷ "reserved"
        ∷ "VI_DATA14" ∷ [])
    ∷ muxctrl 0x179F0054 (
        "MIPI_RX0_D2P" ∷ "reserved" ∷ "reserved" ∷ "reserved" ∷ "reserved" ∷ "reserved"
        ∷ "VI_DATA15" ∷ [])
    ∷ muxctrl 0x179F0058 (
        "MIPI_RX0_CK0N" ∷ "reserved" ∷ "reserved" ∷ "reserved" ∷ "reserved" ∷ "reserved"
        ∷ "VI_DATA12" ∷ [])
    ∷ muxctrl 0x179F005C (
        "MIPI_RX0_CK0P" ∷ "reserved" ∷ "reserved" ∷ "reserved" ∷ "reserved" ∷ "reserved"
        ∷ "VI_DATA13" ∷ [])
    ∷ muxctrl 0x179F0060 (
        "MIPI_RX0_CK1N" ∷ "reserved" ∷ "reserved" ∷ "reserved" ∷ "reserved" ∷ "reserved"
        ∷ "VI_DATA4" ∷ "THERMO_DO3" ∷ [])
    ∷ muxctrl 0x179F0064 (
        "MIPI_RX0_CK1P" ∷ "reserved" ∷ "reserved" ∷ "reserved" ∷ "reserved" ∷ "reserved"
        ∷ "VI_DATA5" ∷ "THERMO_DO0" ∷ [])
    ∷ muxctrl 0x179F0068 (
        "MIPI_RX0_D1N" ∷ "reserved" ∷ "reserved" ∷ "reserved" ∷ "reserved" ∷ "reserved" ∷ "VI_DATA0"
        ∷ "THERMO_DO5" ∷ [])
    ∷ muxctrl 0x179F006C (
        "MIPI_RX0_D1P" ∷ "reserved" ∷ "reserved" ∷ "reserved" ∷ "reserved" ∷ "reserved" ∷ "VI_DATA1"
        ∷ "THERMO_DO4" ∷ [])
    ∷ muxctrl 0x179F0070 (
        "MIPI_RX0_D3N" ∷ "reserved" ∷ "reserved" ∷ "reserved" ∷ "reserved" ∷ "reserved" ∷ "VI_DATA2"
        ∷ "THERMO_DO2" ∷ [])
    ∷ muxctrl 0x179F0074 (
        "MIPI_RX0_D3P" ∷ "reserved" ∷ "reserved" ∷ "reserved" ∷ "reserved" ∷ "reserved" ∷ "VI_DATA3"
        ∷ "THERMO_DO1" ∷ [])
    ∷ muxctrl 0x179F0078 ("MIPI_RX1_D0N" ∷ "GPIO13_5" ∷ [])
    ∷ muxctrl 0x179F007C ("MIPI_RX1_D0P" ∷ "GPIO13_6" ∷ [])
    ∷ muxctrl 0x179F0080 ("MIPI_RX1_D2N" ∷ "GPIO13_7" ∷ [])
    ∷ muxctrl 0x179F0084 ("MIPI_RX1_D2P" ∷ "GPIO14_0" ∷ [])
    ∷ muxctrl 0x179F0088 ("MIPI_RX1_CK0N" ∷ "GPIO14_1" ∷ [])
    ∷ muxctrl 0x179F008C ("MIPI_RX1_CK0P" ∷ "GPIO14_2" ∷ [])
    ∷ muxctrl 0x179F0090 ("MIPI_RX1_CK1N" ∷ "GPIO14_3" ∷ [])
    ∷ muxctrl 0x179F0094 ("MIPI_RX1_CK1P" ∷ "GPIO14_4" ∷ [])
    ∷ muxctrl 0x179F0098 ("MIPI_RX1_D1N" ∷ "GPIO14_5" ∷ [])
    ∷ muxctrl 0x179F009C ("MIPI_RX1_D1P" ∷ "GPIO14_6" ∷ [])
    ∷ muxctrl 0x179F00A0 ("MIPI_RX1_D3N" ∷ "GPIO14_7" ∷ [])
    ∷ muxctrl 0x179F00A4 ("MIPI_RX1_D3P" ∷ "GPIO1_7" ∷ [])
    ∷ muxctrl 0x0EFF0000 (
        "reserved" ∷ "reserved" ∷ "reserved" ∷ "reserved" ∷ "reserved" ∷ "reserved" ∷ "reserved"
        ∷ "THERMO_RSTN" ∷ [])
    ∷ muxctrl 0x0EFF0004 ("reserved" ∷ "SENSOR1_CLK" ∷ [])
    ∷ muxctrl 0x0EFF0008 ("reserved" ∷ "SENSOR1_RSTN" ∷ [])
    ∷ muxctrl 0x0EFF000C (
        "reserved" ∷ "SENSOR1_HS" ∷ "reserved" ∷ "reserved" ∷ "reserved" ∷ "reserved" ∷ "reserved"
        ∷ "THERMO_SD2" ∷ [])
    ∷ muxctrl 0x0EFF0010 (
        "reserved" ∷ "SENSOR1_VS" ∷ "reserved" ∷ "reserved" ∷ "reserved" ∷ "reserved" ∷ "reserved"
        ∷ "THERMO_SD3" ∷ [])
    ∷ muxctrl 0x0EFF0014 ("reserved" ∷ "PWM2" ∷ [])
    ∷ muxctrl 0x0EFF0018 ("reserved" ∷ "USB_OVRCUR" ∷ [])
    ∷ muxctrl 0x0EFF0020 ("reserved" ∷ "PWM0" ∷ [])
    ∷ muxctrl 0x0EFF0024
        ("reserved" ∷ "SPI1_SCLK" ∷ "I2C5_SCL" ∷ "reserved" ∷ "reserved" ∷ "SPI_3WIRE_CLK" ∷ [])
    ∷ muxctrl 0x0EFF0028
        ("reserved" ∷ "SPI1_SDO" ∷ "I2C5_SDA" ∷ "reserved" ∷ "reserved" ∷ "SPI_3WIRE_DATA" ∷ [])
    ∷ muxctrl 0x0EFF002C ("reserved" ∷ "SPI1_SDI" ∷ "I2C6_SCL" ∷ [])
    ∷ muxctrl 0x0EFF0030
        ("reserved" ∷ "SPI1_CSN" ∷ "I2C6_SDA" ∷ "reserved" ∷ "reserved" ∷ "SPI_3WIRE_CSN" ∷ [])
    ∷ muxctrl 0x11120204 ("reserved" ∷ "GPIO9_0" ∷ [])
    ∷ muxctrl 0x11120208 ("reserved" ∷ "GPIO9_1" ∷ [])
    ∷ muxctrl 0x1112020C ("reserved" ∷ "GPIO9_2" ∷ [])
    ∷ muxctrl 0x11120210 ("reserved" ∷ "GPIO9_3" ∷ [])
    ∷ muxctrl 0x11120214 ("reserved" ∷ "GPIO9_4" ∷ [])
    ∷ muxctrl 0x11120218 ("reserved" ∷ "GPIO9_5" ∷ [])
    ∷ muxctrl 0x1112021C ("reserved" ∷ "GPIO9_6" ∷ [])
    ∷ []

pub dv500_regs-proper : proper dv500_regs ≡ true
unfolding dv500_regs proper
dv500_regs-proper = refl
