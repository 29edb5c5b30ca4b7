-- ===== src/Pinmux/Tables/Dv200.antt =====
-- src/reginfo.c: the registers of `DV200regs`, in its order.
use ipctool.Base.{List, [], ◌∷◌, ◌++◌, ◌≡◌, refl, true}
use ipctool.Pinmux.Register.{Register, muxctrl, proper}

dv200_low : List Register
dv200_low =
    muxctrl 0x100C0000 ("GPIO0_1" ∷ "UART0_RXD" ∷ [])
    ∷ muxctrl 0x100C0004 ("GPIO0_2" ∷ "UART0_TXD" ∷ [])
    ∷ muxctrl 0x100C0008 ("GPIO0_0" ∷ "UPDATE_MODE" ∷ [])
    ∷ muxctrl 0x100C000C ("GPIO0_3" ∷ "PWM0" ∷ "UART1_TXD" ∷ "I2C1_SCL" ∷ [])
    ∷ muxctrl 0x100C0010 ("GPIO0_4" ∷ "PWM1" ∷ "UART1_RXD" ∷ "I2C1_SDA" ∷ [])
    ∷ muxctrl 0x100C0014 ("EMMC_CLK" ∷ "SFC_CLK" ∷ "SFC_DEVICE_MODE" ∷ [])
    ∷ muxctrl 0x100C0018 ("EMMC_CMD" ∷ "SFC_MOSI_IO0" ∷ [])
    ∷ muxctrl 0x100C001C ("EMMC_DATA0" ∷ "SFC_MISO_IO1" ∷ [])
    ∷ muxctrl 0x100C0020 ("EMMC_DATA3" ∷ "SFC_WP_IO2" ∷ [])
    ∷ muxctrl 0x100C0024 ("EMMC_DATA2" ∷ "SFC_HOLD_IO3" ∷ [])
    ∷ muxctrl 0x100C0028 ("EMMC_DATA1" ∷ "SFC_CSN" ∷ [])
    ∷ muxctrl 0x100C002C ("SYS_RSTN_OUT" ∷ "WDG_RSTN" ∷ [])
    ∷ muxctrl 0x100C0030 ("GPIO3_4" ∷ "reserved" ∷ "reserved" ∷ "EMMC_DATA4" ∷ [])
    ∷ muxctrl 0x100C0034 ("GPIO3_5" ∷ "reserved" ∷ "reserved" ∷ "EMMC_DATA5" ∷ [])
    ∷ muxctrl 0x100C0038 ("GPIO3_6" ∷ "reserved" ∷ "reserved" ∷ "EMMC_DATA6" ∷ [])
    ∷ muxctrl 0x100C003C ("GPIO3_7" ∷ "reserved" ∷ "reserved" ∷ "EMMC_DATA7" ∷ [])
    ∷ muxctrl 0x100C0040 (
        "GPIO4_0" ∷ "SDIO0_CCLK_OUT" ∷ "JTAG_TCK" ∷ "EMMC_CLK" ∷ "SDIO1_CCLK_OUT" ∷ "reserved"
        ∷ "reserved" ∷ "SFC_INPUT_SEL" ∷ [])
    ∷ muxctrl 0x100C0044 ("GPIO4_1" ∷ "SDIO0_CCMD" ∷ "reserved" ∷ "EMMC_CMD" ∷ "SDIO1_CCMD" ∷ [])
    ∷ muxctrl 0x100C0048
        ("GPIO4_2" ∷ "SDIO0_CDATA0" ∷ "JTAG_TMS" ∷ "EMMC_DATA1" ∷ "SDIO1_CDATA3" ∷ [])
    ∷ muxctrl 0x100C004C
        ("GPIO4_3" ∷ "SDIO0_CDATA1" ∷ "JTAG_TDO" ∷ "EMMC_DATA2" ∷ "SDIO1_CDATA2" ∷ [])
    ∷ muxctrl 0x100C0050
        ("GPIO4_4" ∷ "SDIO0_CDATA2" ∷ "JTAG_TDI" ∷ "EMMC_DATA3" ∷ "SDIO1_CDATA1" ∷ [])
    ∷ muxctrl 0x100C0054
        ("GPIO4_5" ∷ "SDIO0_CDATA3" ∷ "JTAG_TRSTN" ∷ "EMMC_DATA0" ∷ "SDIO1_CDATA0" ∷ [])
    ∷ muxctrl 0x100C0058 ("GPIO4_6" ∷ "SDIO0_CARD_POWER_EN_N" ∷ "reserved" ∷ "EMMC_DS" ∷ [])
    ∷ muxctrl 0x100C005C ("GPIO4_7" ∷ "SDIO0_CARD_DETECT" ∷ "reserved" ∷ "EMMC_RST_N" ∷ [])
    ∷ muxctrl 0x100C0060 ("GPIO2_1" ∷ "SFC_CLK" ∷ "reserved" ∷ "reserved" ∷ "SDIO1_CCLK_OUT" ∷ [])
    ∷ muxctrl 0x100C0064 ("GPIO2_2" ∷ "SFC_WP_IO2" ∷ "reserved" ∷ "reserved" ∷ "SDIO1_CCMD" ∷ [])
    ∷ muxctrl 0x100C0068
        ("GPIO3_0" ∷ "SFC_MOSI_IO0" ∷ "reserved" ∷ "reserved" ∷ "SDIO1_CDATA0" ∷ [])
    ∷ muxctrl 0x100C006C
        ("GPIO3_1" ∷ "SFC_HOLD_IO3" ∷ "reserved" ∷ "reserved" ∷ "SDIO1_CDATA1" ∷ [])
    ∷ muxctrl 0x100C0070 ("GPIO3_2" ∷ "SFC_CSN" ∷ "reserved" ∷ "reserved" ∷ "SDIO1_CDATA2" ∷ [])
    ∷ muxctrl 0x100C0074
        ("GPIO3_3" ∷ "SFC_MISO_IO1" ∷ "reserved" ∷ "reserved" ∷ "SDIO1_CDATA3" ∷ [])
    ∷ muxctrl 0x100C0078 ("GPIO0_5" ∷ "USB_OVRCUR" ∷ [])
    ∷ muxctrl 0x100C007C ("GPIO0_6" ∷ "USB_VBUS" ∷ [])
    ∷ muxctrl 0x100C0080 ("GPIO0_7" ∷ "USB_PWREN" ∷ [])
    ∷ muxctrl 0x100C0084 ("GPIO2_4" ∷ "SPI1_SCLK" ∷ [])
    ∷ muxctrl 0x100C0088 ("GPIO2_5" ∷ "SPI1_SDO" ∷ [])
    ∷ muxctrl 0x100C008C ("GPIO2_6" ∷ "SPI1_CSN0" ∷ [])
    ∷ muxctrl 0x100C0090 ("GPIO2_7" ∷ "SPI1_SDI" ∷ [])
    ∷ muxctrl 0x100C0094 ("RST_N" ∷ [])
    ∷ muxctrl 0x100C0098 ("POR_SEL" ∷ [])
    ∷ muxctrl 0x100C009C ("GPIO9_0" ∷ "PWM2" ∷ [])
    ∷ muxctrl 0x100C00A0 ("GPIO9_1" ∷ "PWM3" ∷ [])
    ∷ muxctrl 0x100C00A4 ("GPIO2_3" ∷ "SVB_PWM" ∷ [])
    ∷ muxctrl 0x112C0000 ("MIPI_RX_CK0N" ∷ "VI_BT1120_DATA10" ∷ "VI_CLK" ∷ [])
    ∷ muxctrl 0x112C0004 ("MIPI_RX_CK0P" ∷ "VI_BT1120_DATA11" ∷ "VI_DATA7" ∷ [])
    ∷ muxctrl 0x112C0008 ("MIPI_RX_D0N" ∷ "VI_BT1120_DATA12" ∷ "reserved" ∷ "VI_DATA9" ∷ [])
    ∷ muxctrl 0x112C000C ("MIPI_RX_D0P" ∷ "VI_BT1120_DATA13" ∷ "reserved" ∷ "VI_DATA8" ∷ [])
    ∷ muxctrl 0x112C0010 ("MIPI_RX_D2N" ∷ "VI_BT1120_DATA14" ∷ "reserved" ∷ "VI_DATA10" ∷ [])
    ∷ muxctrl 0x112C0014 ("MIPI_RX_D2P" ∷ "VI_BT1120_DATA15" ∷ "reserved" ∷ "VI_DATA11" ∷ [])
    ∷ muxctrl 0x112C0018 ("MIPI_RX_D1N" ∷ "VI_BT1120_DATA6" ∷ "reserved" ∷ "VI_DATA6" ∷ [])
    ∷ muxctrl 0x112C001C ("MIPI_RX_D1P" ∷ "VI_BT1120_DATA7" ∷ "reserved" ∷ "VI_DATA4" ∷ [])
    ∷ []

dv200_high : List Register
dv200_high =
    muxctrl 0x112C0020 ("MIPI_RX_D3N" ∷ "VI_BT1120_DATA8" ∷ "reserved" ∷ "VI_DATA3" ∷ [])
    ∷ muxctrl 0x112C0024 ("MIPI_RX_D3P" ∷ "VI_BT1120_DATA9" ∷ "reserved" ∷ "VI_DATA5" ∷ [])
    ∷ muxctrl 0x112C0028 ("TEST_CLK" ∷ "SENSOR_CLK" ∷ "reserved" ∷ "reserved" ∷ "GPIO5_4" ∷ [])
    ∷ muxctrl 0x112C002C ("GPIO5_5" ∷ "SENSOR_RSTN" ∷ [])
    ∷ muxctrl 0x112C0030 ("GPIO5_6" ∷ "I2C0_SDA" ∷ [])
    ∷ muxctrl 0x112C0034 ("GPIO5_7" ∷ "I2C0_SCL" ∷ [])
    ∷ muxctrl 0x112C0038 (
        "GPIO6_2" ∷ "I2C2_SDA" ∷ "reserved" ∷ "VI_HS" ∷ "reserved" ∷ "reserved" ∷ "reserved"
        ∷ "SPI0_SDO" ∷ [])
    ∷ muxctrl 0x112C003C (
        "GPIO6_3" ∷ "I2C2_SCL" ∷ "reserved" ∷ "VI_VS" ∷ "reserved" ∷ "reserved" ∷ "reserved"
        ∷ "SPI0_SCLK" ∷ [])
    ∷ muxctrl 0x112C0040 (
        "GPIO5_0" ∷ "ETH_LINK_STA_LED" ∷ "reserved" ∷ "VI_DATA2" ∷ "reserved" ∷ "reserved"
        ∷ "reserved" ∷ "SPI0_CSN" ∷ [])
    ∷ muxctrl 0x112C0044 ("GPIO5_1" ∷ "ETH_LINK_ACT_LED" ∷ "TEST_MODE" ∷ [])
    ∷ muxctrl 0x112C0048 (
        "GPIO8_7" ∷ "BOOT_SEL1" ∷ "SENSOR_RSTN" ∷ "VO_BT656_CLK" ∷ "SDIO1_CCLK_OUT" ∷ "LCD_CLK"
        ∷ "VO_BT1120_CLK" ∷ "SPI1_SCLK" ∷ [])
    ∷ muxctrl 0x112C004C (
        "GPIO8_5" ∷ "VI_BT1120_DATA0" ∷ "VI_HS" ∷ "VO_BT656_DATA0" ∷ "SDIO1_CCMD" ∷ "LCD_HS"
        ∷ "VO_BT1120_DATA8" ∷ "SPI1_SDI" ∷ [])
    ∷ muxctrl 0x112C0050 (
        "GPIO8_6" ∷ "VI_BT1120_DATA1" ∷ "VI_VS" ∷ "VO_BT656_DATA1" ∷ "reserved" ∷ "LCD_VS"
        ∷ "VO_BT1120_DATA9" ∷ "SPI1_SDO" ∷ [])
    ∷ muxctrl 0x112C0054 (
        "GPIO8_4" ∷ "BOOT_SEL0" ∷ "SENSOR_CLK" ∷ "PWM2" ∷ "reserved" ∷ "LCD_DE" ∷ "reserved"
        ∷ "SPI1_CSN0" ∷ [])
    ∷ muxctrl 0x112C0058 (
        "GPIO7_0" ∷ "VI_BT1120_DATA4" ∷ "I2C2_SCL" ∷ "VO_BT656_DATA4" ∷ "SDIO1_CDATA3" ∷ "LCD_DATA4"
        ∷ "VO_BT1120_DATA4" ∷ "SPI1_CSN1" ∷ "LCD_DATA3" ∷ [])
    ∷ muxctrl 0x112C005C (
        "GPIO7_1" ∷ "VI_BT1120_DATA5" ∷ "I2C2_SDA" ∷ "VO_BT656_DATA5" ∷ "SDIO1_CDATA2" ∷ "LCD_DATA5"
        ∷ "VO_BT1120_DATA5" ∷ "VI_DATA0" ∷ "LCD_DATA2" ∷ [])
    ∷ muxctrl 0x112C0060 (
        "GPIO7_2" ∷ "VI_BT1120_CLK" ∷ "I2C0_SDA" ∷ "VO_BT656_DATA6" ∷ "SDIO1_CDATA1" ∷ "LCD_DATA6"
        ∷ "VO_BT1120_DATA6" ∷ "VI_DATA1" ∷ "LCD_DATA1" ∷ [])
    ∷ muxctrl 0x112C0064 (
        "GPIO7_3" ∷ "reserved" ∷ "I2C0_SCL" ∷ "VO_BT656_DATA7" ∷ "SDIO1_CDATA0" ∷ "LCD_DATA7"
        ∷ "VO_BT1120_DATA7" ∷ "VI_DATA2" ∷ "LCD_DATA0" ∷ [])
    ∷ muxctrl 0x112C0068 (
        "GPIO6_7" ∷ "VI_BT1120_DATA3" ∷ "reserved" ∷ "VO_BT656_DATA3" ∷ "LCD_DE" ∷ "LCD_DATA3"
        ∷ "VO_BT1120_DATA3" ∷ "SPI0_CSN" ∷ "LCD_DATA4" ∷ [])
    ∷ muxctrl 0x112C006C (
        "GPIO6_6" ∷ "SFC_BOOT_MODE" ∷ "PWM3" ∷ "VO_BT656_DATA2" ∷ "LCD_VS" ∷ "LCD_DATA2"
        ∷ "VO_BT1120_DATA2" ∷ "SPI0_SDO" ∷ "LCD_DATA5" ∷ [])
    ∷ muxctrl 0x112C0070 (
        "GPIO6_5" ∷ "VI_BT1120_DATA2" ∷ "UART1_RXD" ∷ "reserved" ∷ "LCD_HS" ∷ "LCD_DATA1"
        ∷ "VO_BT1120_DATA1" ∷ "SPI0_SDI" ∷ "LCD_DATA6" ∷ [])
    ∷ muxctrl 0x112C0074 (
        "GPIO6_4" ∷ "reserved" ∷ "UART1_TXD" ∷ "reserved" ∷ "LCD_CLK" ∷ "LCD_DATA0"
        ∷ "VO_BT1120_DATA0" ∷ "SPI0_SCLK" ∷ "LCD_DATA7" ∷ [])
    ∷ muxctrl 0x112C0078 (
        "GPIO7_4" ∷ "UART1_TXD" ∷ "reserved" ∷ "reserved" ∷ "LCD_DATA0" ∷ "LCD_DATA8" ∷ "reserved"
        ∷ "reserved" ∷ "LCD_DATA15" ∷ [])
    ∷ muxctrl 0x112C007C (
        "GPIO7_5" ∷ "UART1_RXD" ∷ "reserved" ∷ "reserved" ∷ "LCD_DATA1" ∷ "LCD_DATA9" ∷ "reserved"
        ∷ "reserved" ∷ "LCD_DATA14" ∷ [])
    ∷ muxctrl 0x112C0080 (
        "GPIO7_6" ∷ "UART1_CTSN" ∷ "reserved" ∷ "reserved" ∷ "LCD_DATA2" ∷ "LCD_DATA10"
        ∷ "VO_BT1120_DATA10" ∷ "reserved" ∷ "LCD_DATA13" ∷ [])
    ∷ muxctrl 0x112C0084 (
        "GPIO7_7" ∷ "UART1_RTSN" ∷ "reserved" ∷ "reserved" ∷ "LCD_DATA3" ∷ "LCD_DATA11"
        ∷ "VO_BT1120_DATA11" ∷ "reserved" ∷ "LCD_DATA12" ∷ [])
    ∷ muxctrl 0x112C0088 (
        "GPIO8_0" ∷ "reserved" ∷ "reserved" ∷ "reserved" ∷ "LCD_DATA4" ∷ "LCD_DATA12"
        ∷ "VO_BT1120_DATA12" ∷ "reserved" ∷ "LCD_DATA11" ∷ [])
    ∷ muxctrl 0x112C008C (
        "GPIO8_1" ∷ "reserved" ∷ "reserved" ∷ "reserved" ∷ "LCD_DATA5" ∷ "LCD_DATA13"
        ∷ "VO_BT1120_DATA13" ∷ "reserved" ∷ "LCD_DATA10" ∷ [])
    ∷ muxctrl 0x112C0090 (
        "GPIO8_2" ∷ "reserved" ∷ "reserved" ∷ "reserved" ∷ "LCD_DATA6" ∷ "LCD_DATA14"
        ∷ "VO_BT1120_DATA14" ∷ "reserved" ∷ "LCD_DATA9" ∷ [])
    ∷ muxctrl 0x112C0094 (
        "GPIO8_3" ∷ "reserved" ∷ "reserved" ∷ "reserved" ∷ "LCD_DATA7" ∷ "LCD_DATA15"
        ∷ "VO_BT1120_DATA15" ∷ "reserved" ∷ "LCD_DATA8" ∷ [])
    ∷ muxctrl 0x112C0098 ("GPIO5_2" ∷ "FLASH_TRIG" ∷ "SENSOR_HS" ∷ [])
    ∷ muxctrl 0x112C009C ("GPIO5_3" ∷ "SHUTTER_TRIG" ∷ "SENSOR_VS" ∷ "reserved" ∷ "SPI0_CSN" ∷ [])
    ∷ muxctrl 0x112C00A0 ("GPIO6_0" ∷ "I2C1_SDA" ∷ "reserved" ∷ "reserved" ∷ "SPI0_SDO" ∷ [])
    ∷ muxctrl 0x112C00A4 ("GPIO6_1" ∷ "I2C1_SCL" ∷ "reserved" ∷ "reserved" ∷ "SPI0_SCLK" ∷ [])
    ∷ muxctrl 0x120C0000 ("GPIO1_0" ∷ "LSADC_CH0" ∷ [])
    ∷ muxctrl 0x120C0004 ("GPIO1_1" ∷ "LSADC_CH1" ∷ [])
    ∷ muxctrl 0x120C0008 ("GPIO1_2" ∷ "LSADC_CH2" ∷ [])
    ∷ muxctrl 0x120C000C ("GPIO1_3" ∷ "LSADC_CH3" ∷ [])
    ∷ muxctrl 0x120C0010
        ("JTAG_TRSTN" ∷ "SPI1_CSN0" ∷ "GPIO1_4" ∷ "reserved" ∷ "UART2_RXD" ∷ "I2S_MCLK" ∷ [])
    ∷ muxctrl 0x120C0014
        ("JTAG_TCK" ∷ "SPI1_SCLK" ∷ "GPIO1_5" ∷ "reserved" ∷ "UART2_TXD" ∷ "I2S_BCLK" ∷ [])
    ∷ muxctrl 0x120C0018
        ("JTAG_TMS" ∷ "SPI1_SDI" ∷ "GPIO1_6" ∷ "PWM2" ∷ "UART2_CTSN" ∷ "I2S_WS" ∷ [])
    ∷ muxctrl 0x120C001C
        ("JTAG_TDO" ∷ "SPI1_SDO" ∷ "GPIO1_7" ∷ "reserved" ∷ "UART2_RTSN" ∷ "I2S_SD_RX" ∷ [])
    ∷ muxctrl 0x120C0020
        ("JTAG_TDI" ∷ "SPI1_CSN1" ∷ "GPIO2_0" ∷ "SDIO0_CARD_POWER_EN_N" ∷ "PWM3" ∷ "I2S_SD_TX" ∷ [])
    ∷ muxctrl 0x120F0010 ("PWR_RSTN" ∷ [])
    ∷ muxctrl 0x120F0014 ("PWR_SEQ" ∷ [])
    ∷ muxctrl 0x120F0018 ("PWR_BUTTON" ∷ [])
    ∷ muxctrl 0x120F001C ("PWR_STARTUP" ∷ [])
    ∷ muxctrl 0x120F0020 ("PWR_WAKEUP" ∷ [])
    ∷ muxctrl 0x120F0024 ("PWR_EN" ∷ [])
    ∷ []

pub dv200_regs : List Register
unfolding dv200_low dv200_high
dv200_regs = dv200_low ++ dv200_high

pub dv200_regs-proper : proper dv200_regs ≡ true
unfolding dv200_regs proper
dv200_regs-proper = refl
